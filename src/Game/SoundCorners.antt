-- ===== src/Game/SoundCorners.antt =====
-- The rooks of the castling rights that `applyMove` of useChessGame.js leaves.
use end_to_end_kubernetes_ch.Base.{
  ℕ, ◌≡◌, ◌∙◌, inl, inr, Bool, true, false, Option, none, some, ◌==◌, ◌&&◌, arith, Bool-cases,
}
use end_to_end_kubernetes_ch.Engine.{
  Color, white, black, Kind, rook, king, piece, Board, Square, Castling, same_kind, cell, put,
}
use end_to_end_kubernetes_ch.Engine.Moves.{app_mv, castle_row}
use end_to_end_kubernetes_ch.Engine.Check.{ep_row}
use end_to_end_kubernetes_ch.Engine.Frame.{put-IsBoard, cell-put}
use end_to_end_kubernetes_ch.Engine.Kings.{piece-OnBoard}
use end_to_end_kubernetes_ch.Game.Apply.{next_cast}
use end_to_end_kubernetes_ch.Game.MoveForms.{Form, castled, took_ep, plain}
use end_to_end_kubernetes_ch.Game.Soundness.{AtHome, RooksHome}
use end_to_end_kubernetes_ch.Game.SoundMoves.{
  Offered, kept, moved, ep_pawn, castle_row-OnBoard, path_columns,
}

-- What a right that is left says of the move.
abbrev Untouched : Bool → Color → Kind → ℕ → ℕ → ℕ → ℕ → ℕ → ℕ → Type 0
Untouched old turn t fr fc tr tc i j =
    (old ≡ true)
    × ((tr == i && tc == j) ≡ false)
    × ((same_kind t rook && (fr == i && fc == j)) ≡ false)
    × ((same_kind t king && castle_row turn == i) ≡ false)

keeps_wk :
    (cast : Castling) (turn : Color) (t : Kind) (fr fc tr tc : ℕ)
    → (next_cast cast turn t fr fc tr tc).wk ≡ true
    → Untouched cast.wk turn t fr fc tr tc 7 7
unfolding next_cast
keeps_wk cast white king fr fc tr tc h = ground (arith, h)
keeps_wk cast white rook fr fc tr tc h = ground (arith, h)
keeps_wk cast white _ fr fc tr tc h = ground (arith, h)
keeps_wk cast black king fr fc tr tc h = ground (arith, h)
keeps_wk cast black rook fr fc tr tc h = ground (arith, h)
keeps_wk cast black _ fr fc tr tc h = ground (arith, h)

keeps_wq :
    (cast : Castling) (turn : Color) (t : Kind) (fr fc tr tc : ℕ)
    → (next_cast cast turn t fr fc tr tc).wq ≡ true
    → Untouched cast.wq turn t fr fc tr tc 7 0
unfolding next_cast
keeps_wq cast white king fr fc tr tc h = ground (arith, h)
keeps_wq cast white rook fr fc tr tc h = ground (arith, h)
keeps_wq cast white _ fr fc tr tc h = ground (arith, h)
keeps_wq cast black king fr fc tr tc h = ground (arith, h)
keeps_wq cast black rook fr fc tr tc h = ground (arith, h)
keeps_wq cast black _ fr fc tr tc h = ground (arith, h)

keeps_bk :
    (cast : Castling) (turn : Color) (t : Kind) (fr fc tr tc : ℕ)
    → (next_cast cast turn t fr fc tr tc).bk ≡ true
    → Untouched cast.bk turn t fr fc tr tc 0 7
unfolding next_cast
keeps_bk cast white king fr fc tr tc h = ground (arith, h)
keeps_bk cast white rook fr fc tr tc h = ground (arith, h)
keeps_bk cast white _ fr fc tr tc h = ground (arith, h)
keeps_bk cast black king fr fc tr tc h = ground (arith, h)
keeps_bk cast black rook fr fc tr tc h = ground (arith, h)
keeps_bk cast black _ fr fc tr tc h = ground (arith, h)

keeps_bq :
    (cast : Castling) (turn : Color) (t : Kind) (fr fc tr tc : ℕ)
    → (next_cast cast turn t fr fc tr tc).bq ≡ true
    → Untouched cast.bq turn t fr fc tr tc 0 0
unfolding next_cast
keeps_bq cast white king fr fc tr tc h = ground (arith, h)
keeps_bq cast white rook fr fc tr tc h = ground (arith, h)
keeps_bq cast white _ fr fc tr tc h = ground (arith, h)
keeps_bq cast black king fr fc tr tc h = ground (arith, h)
keeps_bq cast black rook fr fc tr tc h = ground (arith, h)
keeps_bq cast black _ fr fc tr tc h = ground (arith, h)

module _ {b : Board} {turn : Color} {ep : Option Square} {cast : Castling} {fr fc tr tc : ℕ}
    {t : Kind} (o : Offered b turn ep cast fr fc tr tc t) where
  -- A rook that the move does not touch.
  rook_stays :
      (nb : Board) (col : Color) (i j : ℕ)
      → Form b turn ep cast fr fc tr tc t nb
      → cell b i j ≡ some (piece col rook)
      → (fr == i && fc == j) ≡ false
      → (tr == i && tc == j) ≡ false
      → (same_kind t king && castle_row turn == i) ≡ false
      → cell nb i j ≡ some (piece col rook)
  rook_stays nb col i j (plain q) h from to row = rw q (kept o i j from to ∙ h)
  rook_stays nb col i j (took_ep p q r) h from to row =
      let on = piece-OnBoard b (ep_row turn tr) tc o.sound.kings.shape (ep_pawn o q) in
      elim (Bool-cases (ep_row turn tr == i && tc == j)) [
        | inl m ↦
            let ei : ep_row turn tr ≡ i = ground (arith, m) in
            let ej : tc ≡ j = ground (arith, m) in absurd (cc (rw (ei, ej) at (ep_pawn o q), h))
        | inr m ↦
            rw
              (
                r,
                cell-put (app_mv b fr fc tr tc) (ep_row turn tr) tc i j none (moved o).shape on.0
                    on.1,
                m,
              )
              (kept o i j from to ∙ h)
      ]
  rook_stays nb col i j (castled start goal p (q, w, u) path free r) h from to row =
      let (s8, g8, _, _, _, _, _) = path_columns cast turn tc start goal path in
      let off : (castle_row turn == i) ≡ false = rw p at row in
      let x = cell (app_mv b fr fc tr tc) (castle_row turn) start in
      let first =
        put-IsBoard (app_mv b fr fc tr tc) (castle_row turn) goal x (moved o).shape
          (castle_row-OnBoard turn goal g8).0 in
      rw
        (
          r,
          cell-put (put (app_mv b fr fc tr tc) (castle_row turn) goal x) (castle_row turn) start i j
              none first (castle_row-OnBoard turn start s8).0 s8,
          cell-put (app_mv b fr fc tr tc) (castle_row turn) goal i j x (moved o).shape
              (castle_row-OnBoard turn goal g8).0 g8,
          off,
        )
        (kept o i j from to ∙ h)

  elsewhere :
      (col : Color) (i j : ℕ)
      → cell b i j ≡ some (piece col rook)
      → (same_kind t rook && (fr == i && fc == j)) ≡ false
      → (fr == i && fc == j) ≡ false
  elsewhere col i j h mover = elim (Bool-cases (fr == i && fc == j)) [
    | inr m ↦ m
    | inl m ↦
        let ei : fr ≡ i = ground (arith, m) in
        let ej : fc ≡ j = ground (arith, m) in
        let q : t ≡ rook = cc (rw (ei, ej) at o.there, h) in absurd (cc (rw (q, m) at mover))
  ]

  -- A right that is left has its rook.
  stays_home :
      (nb : Board) (old new : Bool) (col : Color) (i j : ℕ)
      → Form b turn ep cast fr fc tr tc t nb
      → AtHome b old col i j
      → (new ≡ true → Untouched old turn t fr fc tr tc i j)
      → AtHome nb new col i j
  stays_home nb old new col i j form home keep = elim (Bool-cases new) [
    | inr k ↦ inl k
    | inl k ↦ elim home [
      | inl gone ↦ absurd (cc ((keep k).0, gone))
      | inr h ↦
          let (_, to, mover, row) = keep k in
          inr (rook_stays nb col i j form h (elsewhere col i j h mover) to row)
    ]
  ]

  -- The rights that a move leaves have their rooks.
  pub moved-RooksHome :
      (nb : Board)
      → Form b turn ep cast fr fc tr tc t nb
      → RooksHome nb (next_cast cast turn t fr fc tr tc)
  moved-RooksHome nb form =
      let rooks = o.sound.rooks in
      record {
        white_king =
            stays_home nb cast.wk _ white 7 7 form rooks.white_king
              (keeps_wk cast turn t fr fc tr tc);
        white_queen =
            stays_home nb cast.wq _ white 7 0 form rooks.white_queen
              (keeps_wq cast turn t fr fc tr tc);
        black_king =
            stays_home nb cast.bk _ black 0 7 form rooks.black_king
              (keeps_bk cast turn t fr fc tr tc);
        black_queen =
            stays_home nb cast.bq _ black 0 0 form rooks.black_queen
              (keeps_bq cast turn t fr fc tr tc);
      }
