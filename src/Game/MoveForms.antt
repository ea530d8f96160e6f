-- ===== src/Game/MoveForms.antt =====
-- The three forms of a move that `applyMove` of useChessGame.js makes of a raw move: a castling, a
-- capture en passant, or one piece from one square to another.
use end_to_end_kubernetes_ch.Base.{
  ℕ, ◌≡◌, ◌∙◌, refl, ◌⊎◌, inl, inr, true, false, Option, none, some, ◌==◌, arith, ℤ, pos, negsuc,
  ◌+ℤ◌, dist_ℕ, Has, Has-append, All, All-Has, Bool-cases,
}
use end_to_end_kubernetes_ch.Engine.{
  Color, Kind, pawn, knight, bishop, rook, queen, king, Board, Square, Castling, same_kind, cell,
  put,
}
use end_to_end_kubernetes_ch.Engine.Moves.{
  collect, hop, king_steps, can_castle_king, can_castle_queen, castle_row, king_side, queen_side,
  piece_moves, is_empty, app_mv,
}
use end_to_end_kubernetes_ch.Engine.Check.{is_castle, is_ep_move, ep_row, move_rook, take_ep}
use end_to_end_kubernetes_ch.Engine.Slides.{square?-coords}
use end_to_end_kubernetes_ch.Engine.Targets.{Castles, castles-Has, collect-Has, hop-Has}
use end_to_end_kubernetes_ch.Game.Apply.{moved_board}

abbrev IsNear : ℤ × ℤ → Type 0
IsNear d = (d.1 ≡ negsuc 0) ⊎ ((d.1 ≡ pos 0) ⊎ (d.1 ≡ pos 1))

king_steps-IsNear : All IsNear king_steps
king_steps-IsNear = (
  inl refl,
  (
    inr (inl refl),
    (
      inr (inr refl),
      (inl refl, (inr (inr refl), (inl refl, (inr (inl refl), (inr (inr refl), tt))))),
    ),
  ),
)

one_column_away :
    (d : ℤ × ℤ) (c x : ℕ) → IsNear d → pos c +ℤ d.1 ≡ pos x → (dist_ℕ x c == 2) ≡ false
unfolding ◌+ℤ◌
one_column_away d c x (inl e) h = ground (arith, rw e at h)
one_column_away d c x (inr (inl e)) h = ground (arith, rw e at h)
one_column_away d c x (inr (inr e)) h = ground (arith, rw e at h)

-- A king goes two columns aside only in a castling.
two_columns-Castles :
    (b : Board) (col : Color) (r c : ℕ) (ep : Option Square) (t : Castling) (s : Square)
    → Has s (piece_moves b col king r c ep (some t))
    → (dist_ℕ s.1 c == 2) ≡ true
    → Castles b col r c t s
unfolding piece_moves
two_columns-Castles b col r c ep t s h far =
    elim (Has-append s (collect (hop b col r c) king_steps) _ h) [
      | inr m ↦ (castles-Has b col r c t s).0 m
      | inl m ↦
          let (d, hd, hm) = collect-Has (hop b col r c) s king_steps m in
          let (o, _) = (hop-Has b col r c d s).0 hm in
          let (_, q, _, _) = square?-coords (pos r +ℤ d.0) (pos c +ℤ d.1) o in
          absurd
            (cc (far, one_column_away d c s.1 (All-Has IsNear d king_steps king_steps-IsNear hd) q))
    ]

-- Where the rook of a castling stands and goes, and the right for it.
abbrev pub RookPath : Castling → Color → ℕ → ℕ → ℕ → Type 0
RookPath t col tc start goal =
    ((tc ≡ 6) × (start ≡ 7) × (goal ≡ 5) × (king_side t col ≡ true))
    ⊎ ((tc ≡ 2) × (start ≡ 0) × (goal ≡ 3) × (queen_side t col ≡ true))

-- `nb` is the board that the move makes.
pub data Form (b : Board) (col : Color) (ep : Option Square) (cast : Castling) (fr fc tr tc : ℕ)
    (t : Kind) (nb : Board) : Type 0 where
  castled :
      (start goal : ℕ)
      → t ≡ king
      → (fr ≡ castle_row col) × (tr ≡ castle_row col) × (fc ≡ 4)
      → RookPath cast col tc start goal
      → is_empty (cell b (castle_row col) goal) ≡ true
      → nb
        ≡ put
            (put
              (app_mv b fr fc tr tc)
              (castle_row col)
              goal
              (cell (app_mv b fr fc tr tc) (castle_row col) start))
            (castle_row col)
            start
            none
      → Form b col ep cast fr fc tr tc t nb
  took_ep :
      t ≡ pawn
      → ep ≡ some (tr, tc)
      → nb ≡ put (app_mv b fr fc tr tc) (ep_row col tr) tc none
      → Form b col ep cast fr fc tr tc t nb
  plain : nb ≡ app_mv b fr fc tr tc → Form b col ep cast fr fc tr tc t nb

move_rook-king :
    (nb : Board) (row tc : ℕ)
    → (tc == 6) ≡ true
    → move_rook nb row tc ≡ put (put nb row 5 (cell nb row 7)) row 7 none
unfolding move_rook
move_rook-king nb row tc e = simp (move_rook, e)

move_rook-queen :
    (nb : Board) (row tc : ℕ)
    → (tc == 6) ≡ false
    → move_rook nb row tc ≡ put (put nb row 3 (cell nb row 0)) row 0 none
unfolding move_rook
move_rook-queen nb row tc e = simp (move_rook, e)

nothing_taken :
    (nb : Board) (col : Color) (t : Kind) (ep : Option Square) (tr tc : ℕ)
    → same_kind t pawn ≡ false
    → take_ep nb col t ep tr tc ≡ nb
unfolding take_ep
nothing_taken nb col t none tr tc h = refl
nothing_taken nb col t (some e) tr tc h = simp (take_ep, h)

pub ep_square :
    (ep : Option Square) (tr tc : ℕ) → is_ep_move pawn ep tr tc ≡ true → ep ≡ some (tr, tc)
ep_square none tr tc h = cc
ep_square (some e) tr tc h = ground (arith, h)

module _ (b : Board) (col : Color) (ep : Option Square) (cast : Castling) (fr fc tr tc : ℕ) where
  castle-Form :
      (nb : Board)
      → Castles b col fr fc cast (tr, tc)
      → nb ≡ move_rook (app_mv b fr fc tr tc) (castle_row col) tc
      → Form b col ep cast fr fc tr tc king nb
  unfolding can_castle_king can_castle_queen
  castle-Form nb (er, ec, inl (e, k)) h =
      castled 7 5 refl (er, ground (arith, e), ec)
        (inl (ground (arith, e), refl, refl, ground (arith, k))) (ground (arith, k))
        (h ∙ move_rook-king (app_mv b fr fc tr tc) (castle_row col) tc (ground (arith, e)))
  castle-Form nb (er, ec, inr (e, k)) h =
      castled 0 3 refl (er, ground (arith, e), ec)
        (inr (ground (arith, e), refl, refl, ground (arith, k))) (ground (arith, k))
        (h ∙ move_rook-queen (app_mv b fr fc tr tc) (castle_row col) tc (ground (arith, e)))

  one_piece :
      (t : Kind)
      → same_kind t pawn ≡ false
      → is_castle t fc tc ≡ false
      → Form b col ep cast fr fc tr tc t (moved_board b col t ep fr fc tr tc)
  unfolding moved_board
  one_piece t p k = plain (rw (moved_board, k) (nothing_taken _ col t ep tr tc p))

  king_board :
      (dist_ℕ tc fc == 2) ≡ true
      → moved_board b col king ep fr fc tr tc ≡ move_rook (app_mv b fr fc tr tc) (castle_row col) tc
  unfolding moved_board
  king_board e = rw (moved_board, e) (nothing_taken _ col king ep tr tc refl)

  pawn_plain :
      is_ep_move pawn ep tr tc ≡ false
      → moved_board b col pawn ep fr fc tr tc ≡ app_mv b fr fc tr tc
  unfolding moved_board take_ep
  pawn_plain e = rw (moved_board, take_ep, e) refl

  pawn_took :
      is_ep_move pawn ep tr tc ≡ true
      → moved_board b col pawn ep fr fc tr tc ≡ put (app_mv b fr fc tr tc) (ep_row col tr) tc none
  unfolding moved_board take_ep
  pawn_took e = rw (moved_board, take_ep, e) refl

  -- Every raw move has one of the three forms.
  pub moved_board-Form :
      (t : Kind)
      → Has (tr, tc) (piece_moves b col t fr fc ep (some cast))
      → Form b col ep cast fr fc tr tc t (moved_board b col t ep fr fc tr tc)
  moved_board-Form knight h = one_piece knight refl refl
  moved_board-Form bishop h = one_piece bishop refl refl
  moved_board-Form rook h = one_piece rook refl refl
  moved_board-Form queen h = one_piece queen refl refl
  moved_board-Form king h = elim (Bool-cases (dist_ℕ tc fc == 2)) [
    | inr e ↦ one_piece king refl (rw e refl)
    | inl e ↦ castle-Form _ (two_columns-Castles b col fr fc ep cast (tr, tc) h e) (king_board e)
  ]
  moved_board-Form pawn h = elim (Bool-cases (is_ep_move pawn ep tr tc)) [
    | inr e ↦ plain (pawn_plain e)
    | inl e ↦ took_ep refl (ep_square ep tr tc e) (pawn_took e)
  ]
