-- ===== src/Engine/PawnSteps.antt =====
-- The double step of a pawn (`rawMoves` of chessEngine.js).
use end_to_end_kubernetes_ch.Base.{
  ℕ, ◌≡◌, ◌∙◌, sym, ap₂, inl, inr, true, false, Option, some, ◌==◌, ◌&&◌, arith, ℤ, pos, negsuc,
  ◌+ℤ◌, dist_ℕ, Has, Has-append, Bool-cases, Option-cases,
}
use end_to_end_kubernetes_ch.Engine.{
  Color, white, black, pawn, Board, Square, Castling, square?, cell,
}
use end_to_end_kubernetes_ch.Engine.Moves.{
  pawn_capture, pawn_pushes, pawn_double, pushes_from, piece_moves, is_empty, forward,
  forward_twice, start_row,
}
use end_to_end_kubernetes_ch.Engine.Slides.{square?-coords}
use end_to_end_kubernetes_ch.Engine.Targets.{pawn_capture-Has, pawn_pushes-Has, push_if-Has}

-- The row that a double step passes, and the one that it ends on.
abbrev pub passed_row : Color → ℕ
passed_row white = 5
passed_row black = 2

abbrev pub double_row : Color → ℕ
double_row white = 4
double_row black = 3

-- A double step, from the starting row over an empty square.
abbrev pub DoubleStep : Board → Color → ℕ → ℕ → Square → Type 0
DoubleStep b col r c s =
    (r ≡ start_row col) × (s ≡ (double_row col, c)) × (is_empty (cell b (passed_row col) c) ≡ true)

one_row_away :
    (col : Color) (r : ℕ) (x : ℕ) → pos r +ℤ forward col ≡ pos x → (dist_ℕ x r == 2) ≡ false
unfolding ◌+ℤ◌
one_row_away white r x h = ground arith
one_row_away black r x h = ground arith

two_rows_away :
    (col : Color) (r : ℕ) (x : ℕ) → pos r +ℤ forward_twice col ≡ pos x → (dist_ℕ x r == 2) ≡ true
unfolding ◌+ℤ◌
two_rows_away white r x h = ground arith
two_rows_away black r x h = ground arith

twice_from_start :
    (col : Color) (x y : ℕ)
    → pos (start_row col) +ℤ forward col ≡ pos x
    → pos (start_row col) +ℤ forward_twice col ≡ pos y
    → (x ≡ passed_row col) × (y ≡ double_row col)
unfolding ◌+ℤ◌
twice_from_start white x y h k = ground arith
twice_from_start black x y h k = ground arith

module _ (b : Board) (col : Color) (r c : ℕ) (s : Square) where
  pushed : Has s (pawn_pushes b col r c) → (dist_ℕ s.0 r == 2) ≡ true → DoubleStep b col r c s
  unfolding pawn_pushes pawn_double
  pushed h far = elim (Option-cases (square? (pos r +ℤ forward col) (pos c))) [
    | inl e ↦ absurd (rw (pawn_pushes, e) at h)
    | inr (x, e) ↦
        let (px, qx, _, _) = square?-coords (pos r +ℤ forward col) (pos c) e in
        elim (Bool-cases (is_empty (cell b x.0 x.1))) [
          | inr k ↦ absurd (rw (pawn_pushes, e, pushes_from, k) at h)
          | inl k ↦ elim (rw (pawn_pushes, e, pushes_from, k) at h) [
            | inl q ↦ absurd (cc (far, one_row_away col r s.0 (rw (← q) at px)))
            | inr m ↦ second x px qx k ((push_if-Has _ _ s).0 m)
          ]
        ]
  ]
    where
      second :
          (x : Square)
          → pos r +ℤ forward col ≡ pos x.0
          → pos c ≡ pos x.1
          → is_empty (cell b x.0 x.1) ≡ true
          → (square? (pos r +ℤ forward_twice col) (pos c) ≡ some s)
            × ((r == start_row col && is_empty (cell b s.0 s.1)) ≡ true)
          → DoubleStep b col r c s
      second x px qx k (o, t) =
          let (py, qy, _, _) = square?-coords (pos r +ℤ forward_twice col) (pos c) o in
          let home : r ≡ start_row col = ground (arith, t) in
          let (p, q) = twice_from_start col x.0 s.0 (rw home at px) (rw home at py) in
          let cx : x.1 ≡ c = ground (arith, qx) in
          let cs : s.1 ≡ c = ground (arith, qy) in
          (home, ground (arith, q, cs), sym (ap₂ (λ i j. is_empty (cell b i j)) p cx) ∙ k)

  captured_near :
      (ep : Option Square) (dc : ℤ)
      → Has s (pawn_capture b col r c ep dc)
      → (dist_ℕ s.0 r == 2) ≡ false
  captured_near ep dc h =
      let (o, _) = (pawn_capture-Has b col r c ep dc s).0 h in
      let (p, _, _, _) = square?-coords (pos r +ℤ forward col) (pos c +ℤ dc) o in
      one_row_away col r s.0 p

  -- Of a pawn's moves only the double step goes two rows ahead.
  pub two_rows-DoubleStep :
      (ep : Option Square) (cast : Option Castling)
      → Has s (piece_moves b col pawn r c ep cast)
      → (dist_ℕ s.0 r == 2) ≡ true
      → DoubleStep b col r c s
  unfolding piece_moves
  two_rows-DoubleStep ep cast h far = elim (Has-append s (pawn_pushes b col r c) _ h) [
    | inl m ↦ pushed m far
    | inr m ↦ elim (Has-append s (pawn_capture b col r c ep (negsuc 0)) _ m) [
      | inl n ↦ absurd (cc (far, captured_near ep (negsuc 0) n))
      | inr n ↦ absurd (cc (far, captured_near ep (pos 1) n))
    ]
  ]

  captured_row :
      (ep : Option Square) (dc : ℤ)
      → Has s (pawn_capture b col r c ep dc)
      → pos r +ℤ forward col ≡ pos s.0
  captured_row ep dc h =
      let (o, _) = (pawn_capture-Has b col r c ep dc s).0 h in
      (square?-coords (pos r +ℤ forward col) (pos c +ℤ dc) o).0

  pushed_row :
      Has s (pawn_pushes b col r c) → (dist_ℕ s.0 r == 2) ≡ false → pos r +ℤ forward col ≡ pos s.0
  pushed_row h near = elim (pawn_pushes-Has b col r c s h).1 [
    | inl o ↦ (square?-coords (pos r +ℤ forward col) (pos c) o).0
    | inr o ↦ absurd (
        cc
          (near, two_rows_away col r s.0 (square?-coords (pos r +ℤ forward_twice col) (pos c) o).0))
  ]

  -- All other moves of a pawn go one row ahead.
  pub single_step :
      (ep : Option Square) (cast : Option Castling)
      → Has s (piece_moves b col pawn r c ep cast)
      → (dist_ℕ s.0 r == 2) ≡ false
      → pos r +ℤ forward col ≡ pos s.0
  unfolding piece_moves
  single_step ep cast h near = elim (Has-append s (pawn_pushes b col r c) _ h) [
    | inl m ↦ pushed_row m near
    | inr m ↦ elim (Has-append s (pawn_capture b col r c ep (negsuc 0)) _ m) [
      | inl n ↦ captured_row ep (negsuc 0) n
      | inr n ↦ captured_row ep (pos 1) n
    ]
  ]
