-- ===== src/Engine/Kings.antt =====
-- Kings on a board of chessEngine.js when a square is written: one king of each colour stays one.
use end_to_end_kubernetes_ch.Base.{
  ℕ, ◌<◌, ◌≡◌, ◌∙◌, refl, ap, inl, inr, Bool, true, false, none, some, List, [], ◌∷◌, zero, suc,
  ◌==◌, ◌&&◌, arith, if◌then◌else◌, get_elem?, length, All-get_elem?, Bool-cases, Option-cases,
}
use end_to_end_kubernetes_ch.Engine.{
  Color, king, Piece, piece, Cell, Board, Square, IsBoard, same_kind, is_king, cell, cell_of, put,
}
use end_to_end_kubernetes_ch.Engine.Moves.{app_mv}
use end_to_end_kubernetes_ch.Engine.InCheck.{LoneKing, OnBoard}
use end_to_end_kubernetes_ch.Engine.Frame.{cell-put, put-IsBoard}

-- A king of either colour.
abbrev pub has_king : Cell → Bool
has_king none = false
has_king (some (piece c k)) = same_kind k king

pub has_king-is_king : (col : Color) (x : Cell) → has_king x ≡ false → is_king col x ≡ false
has_king-is_king col none h = refl
has_king-is_king col (some (piece c k)) h = ground (arith, h)

below : {A : Type 0} (xs : List A) (i : ℕ) {a : A} → get_elem? xs i ≡ some a → i < length xs
below [] i h = cc
below (x ∷ xs) zero h = omega arith
below (x ∷ xs) (suc i) h = omega (arith, below xs i h)

-- Only the squares of the board hold pieces.
pub piece-OnBoard :
    (b : Board) (r c : ℕ) {p : Piece} → IsBoard b → cell b r c ≡ some p → OnBoard (r, c)
unfolding cell
piece-OnBoard b r c h e = elim (Option-cases (get_elem? b r)) [
  | inl k ↦ absurd (cc (rw (cell, k) at e))
  | inr (row, k) ↦ elim (Option-cases (get_elem? row c)) [
    | inl l ↦ absurd (cc (rw (cell, k, cell_of, l) at e))
    | inr (x, l) ↦ (
      omega (arith, below b r k, h.rows),
      omega (arith, below row c l, All-get_elem? _ b r h.columns k),
    )
  ]
]

module _ (b : Board) (r c : ℕ) (x : Cell) (shape : IsBoard b) (hr : r < 8) (hc : c < 8) where
  -- A write of no king, not over the king, leaves the king alone.
  pub put-LoneKing :
      (col : Color) (k : Square)
      → LoneKing b col k
      → is_king col (cell b r c) ≡ false
      → is_king col x ≡ false
      → LoneKing (put b r c x) col k
  put-LoneKing col k h over new = record {
    on_board = h.on_board;
    is_there = elim (Bool-cases (r == k.0 && c == k.1)) [
      | inl e ↦
          let p : r ≡ k.0 = ground (arith, e) in
          let q : c ≡ k.1 = ground (arith, e) in absurd (cc (over, rw (← p, ← q) at h.is_there))
      | inr e ↦ rw (cell-put b r c k.0 k.1 x shape hr hc, e) h.is_there
    ];
    lone = λ s m. elim (Bool-cases (r == s.0 && c == s.1)) [
      | inl e ↦ absurd (cc (new, rw (cell-put b r c s.0 s.1 x shape hr hc, e) at m))
      | inr e ↦ h.lone s (rw (cell-put b r c s.0 s.1 x shape hr hc, e) at m)
    ];
  }

module _ (b : Board) (fr fc tr tc : ℕ) (shape : IsBoard b) (from : OnBoard (fr, fc))
    (to : OnBoard (tr, tc)) where
  pub app_mv-IsBoard : IsBoard (app_mv b fr fc tr tc)
  unfolding app_mv
  app_mv-IsBoard =
      put-IsBoard (put b tr tc (cell b fr fc)) fr fc none
        (put-IsBoard b tr tc (cell b fr fc) shape to.0) from.0

  -- The squares after a move.
  pub cell-app_mv :
      (i j : ℕ)
      → cell (app_mv b fr fc tr tc) i j ≡ (
          if fr == i && fc == j
          then none
          else if tr == i && tc == j
          then cell b fr fc
          else cell b i j)
  unfolding app_mv
  cell-app_mv i j =
      cell-put (put b tr tc (cell b fr fc)) fr fc i j none
        (put-IsBoard b tr tc (cell b fr fc) shape to.0) from.0 from.1
      ∙ ap (λ x. if fr == i && fc == j then none else x)
          (cell-put b tr tc i j (cell b fr fc) shape to.0 to.1)

  -- A move of another piece than a king, not onto a king.
  pub app_mv-LoneKing :
      (col : Color) (k : Square)
      → LoneKing b col k
      → is_king col (cell b fr fc) ≡ false
      → is_king col (cell b tr tc) ≡ false
      → LoneKing (app_mv b fr fc tr tc) col k
  unfolding app_mv
  app_mv-LoneKing col k h own over =
      put-LoneKing (put b tr tc (cell b fr fc)) fr fc none
        (put-IsBoard b tr tc (cell b fr fc) shape to.0) from.0 from.1 col k
        (put-LoneKing b tr tc (cell b fr fc) shape to.0 to.1 col k h over own)
        (ap (is_king col) (cell-put b tr tc fr fc (cell b fr fc) shape to.0 to.1)
          ∙ either_king (tr == fr && tc == fc))
        refl
    where
      either_king : (p : Bool) → is_king col (if p then cell b fr fc else cell b fr fc) ≡ false
      either_king true = own
      either_king false = own

  -- A move of the king.
  pub king_moved-LoneKing :
      (col : Color) (k : Square)
      → LoneKing b col k
      → is_king col (cell b fr fc) ≡ true
      → is_king col (cell b tr tc) ≡ false
      → LoneKing (app_mv b fr fc tr tc) col (tr, tc)
  king_moved-LoneKing col k h own over = record {
    on_board = to;
    is_there = elim (Bool-cases (fr == tr && fc == tc)) [
      | inl e ↦
          let p : fr ≡ tr = ground (arith, e) in
          let q : fc ≡ tc = ground (arith, e) in absurd (cc (over, rw (p, q) at own))
      | inr e ↦
          let self : (tr == tr && tc == tc) ≡ true = ground arith in
          rw (cell-app_mv tr tc, e, self) own
    ];
    lone = λ s m. elim (Bool-cases (fr == s.0 && fc == s.1)) [
      | inl e ↦ absurd (cc (rw (cell-app_mv s.0 s.1, e) at m))
      | inr e ↦ elim (Bool-cases (tr == s.0 && tc == s.1)) [
        | inl q ↦ ground (arith, q)
        | inr q ↦
            let old : s ≡ k = h.lone s (rw (cell-app_mv s.0 s.1, e, q) at m) in
            let here : (fr, fc) ≡ k = h.lone (fr, fc) own in absurd (ground (arith, e, old, here))
      ]
    ];
  }
