-- ===== src/Game/SoundMoves.antt =====
-- The board that `applyMove` of useChessGame.js makes of a move that a click offers, in a position
-- that is sound: its kings, the rooks of the rights that stay, the pawn that a double step passes.
use end_to_end_kubernetes_ch.Base.{
  ℕ, ◌<◌, ◌≡◌, ◌∙◌, refl, inl, inr, Bool, true, false, Option, none, some, ◌==◌, ◌&&◌, arith,
  if◌then◌else◌, Has,
}
use end_to_end_kubernetes_ch.Engine.{
  Color, white, black, Kind, pawn, rook, piece, Cell, Board, Square, Castling, is_color, is_king,
  opponent, cell, put,
}
use end_to_end_kubernetes_ch.Engine.Moves.{app_mv, piece_moves, raw_moves, is_empty, castle_row}
use end_to_end_kubernetes_ch.Engine.Check.{ep_row, get_legal}
use end_to_end_kubernetes_ch.Engine.InCheck.{OnBoard, raw_moves_at}
use end_to_end_kubernetes_ch.Engine.Frame.{cell-put}
use end_to_end_kubernetes_ch.Engine.Safety.{EpIsEmpty, raw_moves-Target}
use end_to_end_kubernetes_ch.Engine.Captures.{raw_moves-no_king}
use end_to_end_kubernetes_ch.Engine.Kings.{has_king, piece-OnBoard, cell-app_mv}
use end_to_end_kubernetes_ch.Game.Apply.{moved_board}
use end_to_end_kubernetes_ch.Game.Legality.{get_legal_iff}
use end_to_end_kubernetes_ch.Game.MoveForms.{
  RookPath, Form, castled, took_ep, plain, moved_board-Form,
}
use end_to_end_kubernetes_ch.Game.Soundness.{
  Kings, Passed, AtHome, RooksHome, IsSound, put-Kings, app_mv-Kings,
}

Passed-EpIsEmpty :
    (b : Board) (turn : Color) (ep : Option Square) → Passed b turn ep → EpIsEmpty b ep
Passed-EpIsEmpty b turn none h = tt
Passed-EpIsEmpty b turn (some e) h = h.0

no_king_of_either :
    (turn : Color) (x : Cell)
    → is_color turn x ≡ false
    → is_king (opponent turn) x ≡ false
    → has_king x ≡ false
no_king_of_either turn none h k = refl
no_king_of_either white (some (piece white t)) h k = cc
no_king_of_either black (some (piece black t)) h k = cc
no_king_of_either white (some (piece black t)) h k = k
no_king_of_either black (some (piece white t)) h k = k

pub empty-none : (x : Cell) → is_empty x ≡ true → x ≡ none
empty-none none h = refl
empty-none (some p) h = cc

pub castle_row-OnBoard : (col : Color) (c : ℕ) → c < 8 → OnBoard (castle_row col, c)
castle_row-OnBoard white c h = omega arith
castle_row-OnBoard black c h = omega arith

has_no_king_if :
    (p : Bool) (x y : Cell)
    → has_king x ≡ false
    → has_king y ≡ false
    → has_king (if p then x else y) ≡ false
has_no_king_if true x y h k = h
has_no_king_if false x y h k = k

at_home :
    (b : Board) (right : Bool) (col : Color) (r c : ℕ)
    → AtHome b right col r c
    → right ≡ true
    → cell b r c ≡ some (piece col rook)
at_home b right col r c (inl h) k = cc
at_home b right col r c (inr h) k = h

-- The rook of a castling stands on its corner.
rook_of_path :
    (b : Board) (cast : Castling) (col : Color) (tc start goal : ℕ)
    → RooksHome b cast
    → RookPath cast col tc start goal
    → cell b (castle_row col) start ≡ some (piece col rook)
rook_of_path b cast white tc start goal h (inl (p, q, r, k)) =
    rw q (at_home b _ white 7 7 h.white_king k)
rook_of_path b cast black tc start goal h (inl (p, q, r, k)) =
    rw q (at_home b _ black 0 7 h.black_king k)
rook_of_path b cast white tc start goal h (inr (p, q, r, k)) =
    rw q (at_home b _ white 7 0 h.white_queen k)
rook_of_path b cast black tc start goal h (inr (p, q, r, k)) =
    rw q (at_home b _ black 0 0 h.black_queen k)

pub path_columns :
    (cast : Castling) (col : Color) (tc start goal : ℕ)
    → RookPath cast col tc start goal
    → (start < 8)
      × (goal < 8)
      × ((4 == goal) ≡ false)
      × ((tc == goal) ≡ false)
      × ((4 == start) ≡ false)
      × ((tc == start) ≡ false)
      × ((goal == start) ≡ false)
path_columns cast col tc start goal (inl (p, q, r, k)) = ground (arith, p, q, r)
path_columns cast col tc start goal (inr (p, q, r, k)) = ground (arith, p, q, r)

and_false : (p q : Bool) → q ≡ false → (p && q) ≡ false
and_false true q h = h
and_false false q h = refl

-- A move that a click offers for the piece on `fr`, `fc` in a sound position.
pub record Offered (b : Board) (turn : Color) (ep : Option Square) (cast : Castling)
    (fr fc tr tc : ℕ) (t : Kind) : Type 0 where
  pub sound : IsSound b turn ep cast
  pub there : cell b fr fc ≡ some (piece turn t)
  pub legal : Has (tr, tc) (get_legal b fr fc ep (some cast))

module _ {b : Board} {turn : Color} {ep : Option Square} {cast : Castling} {fr fc tr tc : ℕ}
    {t : Kind} (o : Offered b turn ep cast fr fc tr tc t) where
  pub from : OnBoard (fr, fc)
  from = piece-OnBoard b fr fc o.sound.kings.shape o.there

  is_raw : Has (tr, tc) (raw_moves b fr fc ep (some cast))
  is_raw = ((get_legal_iff b fr fc ep (some cast) turn t (tr, tc) o.there).0 o.legal).0

  pub target : OnBoard (tr, tc) × (is_color turn (cell b tr tc) ≡ false)
  target =
      raw_moves-Target b fr fc ep (some cast) turn t (tr, tc) from.0 from.1 o.there
        (Passed-EpIsEmpty b turn ep o.sound.passed) is_raw

  pub over : has_king (cell b tr tc) ≡ false
  over = no_king_of_either turn (cell b tr tc) target.1 (
      raw_moves-no_king b fr fc ep (some cast) turn t (tr, tc)
        (o.sound.kings.square (opponent turn)) from o.there
        (Passed-EpIsEmpty b turn ep o.sound.passed) (o.sound.kings.lone (opponent turn))
        o.sound.unchecked is_raw)

  pub is_move : Has (tr, tc) (piece_moves b turn t fr fc ep (some cast))
  is_move = rw (raw_moves_at b fr fc ep (some cast) turn t o.there) at is_raw

  pub moved : Kings (app_mv b fr fc tr tc)
  moved = app_mv-Kings b fr fc tr tc o.sound.kings from target.0 turn t o.there over

  pub at_square :
      (i j : ℕ)
      → cell (app_mv b fr fc tr tc) i j ≡ (
          if fr == i && fc == j
          then none
          else if tr == i && tc == j
          then cell b fr fc
          else cell b i j)
  at_square = cell-app_mv b fr fc tr tc o.sound.kings.shape from target.0

  pub kept :
      (i j : ℕ)
      → (fr == i && fc == j) ≡ false
      → (tr == i && tc == j) ≡ false
      → cell (app_mv b fr fc tr tc) i j ≡ cell b i j
  kept i j p q = rw (at_square i j, p, q) refl

  pub ep_pawn : ep ≡ some (tr, tc) → cell b (ep_row turn tr) tc ≡ some (piece (opponent turn) pawn)
  ep_pawn q = (rw q at o.sound.passed).1

  pawn_no_king : t ≡ pawn → has_king (cell b fr fc) ≡ false
  pawn_no_king p = rw (o.there, p) refl

  took-Kings :
      t ≡ pawn → ep ≡ some (tr, tc) → Kings (put (app_mv b fr fc tr tc) (ep_row turn tr) tc none)
  took-Kings p q =
      put-Kings (app_mv b fr fc tr tc) (ep_row turn tr) tc none moved
        (piece-OnBoard b (ep_row turn tr) tc o.sound.kings.shape (ep_pawn q))
        (rw (at_square (ep_row turn tr) tc) (
          has_no_king_if (fr == ep_row turn tr && fc == tc) _ _ refl (
            has_no_king_if (tr == ep_row turn tr && tc == tc) _ _ (pawn_no_king p)
              (rw (ep_pawn q) refl))))
        refl

  module _ (start goal : ℕ) (u : fc ≡ 4) (path : RookPath cast turn tc start goal)
      (free : is_empty (cell b (castle_row turn) goal) ≡ true) where
    goal_empty : cell (app_mv b fr fc tr tc) (castle_row turn) goal ≡ none
    goal_empty =
        let (_, _, g, h, _, _, _) = path_columns cast turn tc start goal path in
        kept (castle_row turn) goal (rw u (and_false (fr == castle_row turn) _ g))
          (and_false (tr == castle_row turn) _ h)
        ∙ empty-none _ free

    start_rook : cell (app_mv b fr fc tr tc) (castle_row turn) start ≡ some (piece turn rook)
    start_rook =
        let (_, _, _, _, g, h, _) = path_columns cast turn tc start goal path in
        kept (castle_row turn) start (rw u (and_false (fr == castle_row turn) _ g))
          (and_false (tr == castle_row turn) _ h)
        ∙ rook_of_path b cast turn tc start goal o.sound.rooks path

    castled-Kings : Kings (
        put
          (put
            (app_mv b fr fc tr tc)
            (castle_row turn)
            goal
            (cell (app_mv b fr fc tr tc) (castle_row turn) start))
          (castle_row turn)
          start
          none)
    castled-Kings =
        let (s8, g8, _, _, _, _, apart) = path_columns cast turn tc start goal path in
        let on = castle_row-OnBoard turn goal g8 in
        put-Kings _ (castle_row turn) start none
          (put-Kings (app_mv b fr fc tr tc) (castle_row turn) goal _ moved on (rw goal_empty refl)
            (rw start_rook refl))
          (castle_row-OnBoard turn start s8)
          (rw
            (
              cell-put (app_mv b fr fc tr tc) (castle_row turn) goal (castle_row turn) start
                  (cell (app_mv b fr fc tr tc) (castle_row turn) start) moved.shape on.0 on.1,
              and_false (castle_row turn == castle_row turn) _ apart,
              start_rook,
            )
            refl)
          refl

  pub Form-Kings : (nb : Board) → Form b turn ep cast fr fc tr tc t nb → Kings nb
  Form-Kings nb (plain q) = rw q moved
  Form-Kings nb (took_ep p q r) = rw r (took-Kings p q)
  Form-Kings nb (castled start goal p (q, w, u) path free h) =
      rw h (castled-Kings start goal u path free)

  pub moved_board-Form_of : Form b turn ep cast fr fc tr tc t (moved_board b turn t ep fr fc tr tc)
  moved_board-Form_of = moved_board-Form b turn ep cast fr fc tr tc t is_move
