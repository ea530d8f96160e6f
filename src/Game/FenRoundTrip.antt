-- ===== src/Game/FenRoundTrip.antt =====
-- The piece placement that `boardToFEN` (Chess-Frontend/src/engine/chessEngine.js) writes is the one
-- that `loadFEN` (useChessGame.js) reads.
use end_to_end_kubernetes_ch.Base.{
  ℕ, zero, suc, ◌+◌, ◌-◌, ◌≤◌, ◌<◌, ◌≡◌, ◌∙◌, refl, sym, ap, inl, inr, true, false, none, some, [],
  ◌∷◌, ◌++◌, arith, ◌==◌, leb, Bool-cases, replicate, length, all, any, All,
}
use end_to_end_kubernetes_ch.Engine.{
  white, black, Kind, pawn, knight, bishop, rook, queen, king, Piece, piece, Row, Board, IsBoard,
}
use end_to_end_kubernetes_ch.Game.{Text, letter}
use end_to_end_kubernetes_ch.Game.Fen.{
  run_length, symbol, print_row, print_placement, piece_of_symbol, is_digit, parse_row, split,
  parse_rows, parse_placement,
}

piece_of_symbol-symbol : (p : Piece) → piece_of_symbol (symbol p) ≡ some p
piece_of_symbol-symbol (piece white k) = of_white k
  where
    of_white : (k : Kind) → piece_of_symbol (letter k) ≡ some (piece white k)
    of_white pawn = refl
    of_white knight = refl
    of_white bishop = refl
    of_white rook = refl
    of_white queen = refl
    of_white king = refl
piece_of_symbol-symbol (piece black k) = of_black k
  where
    of_black : (k : Kind) → piece_of_symbol (letter k + 32) ≡ some (piece black k)
    of_black pawn = refl
    of_black knight = refl
    of_black bishop = refl
    of_black rook = refl
    of_black queen = refl
    of_black king = refl

-- The letters of the pieces come after the digits.
symbol_high : (p : Piece) → leb 58 (symbol p) ≡ true
symbol_high (piece white k) = of_white k
  where
    of_white : (k : Kind) → leb 58 (letter k) ≡ true
    of_white pawn = refl
    of_white knight = refl
    of_white bishop = refl
    of_white rook = refl
    of_white queen = refl
    of_white king = refl
symbol_high (piece black k) = of_black k
  where
    of_black : (k : Kind) → leb 58 (letter k + 32) ≡ true
    of_black pawn = refl
    of_black knight = refl
    of_black bishop = refl
    of_black rook = refl
    of_black queen = refl
    of_black king = refl

symbol_no_digit : (p : Piece) → is_digit (symbol p) ≡ false
symbol_no_digit p = no_digit (symbol p) (symbol_high p)
  where
    no_digit : (c : ℕ) → leb 58 c ≡ true → is_digit c ≡ false
    no_digit c h = ground (arith, h)

symbol_other : (p : Piece) (sep : ℕ) → sep < 48 → (symbol p == sep) ≡ false
symbol_other p sep low = other (symbol p) (symbol_high p)
  where
    other : (c : ℕ) → leb 58 c ≡ true → (c == sep) ≡ false
    other c h = ground (arith, h, low)

parse_row-run_length :
    (e : ℕ) (t : Text) (rest : Row)
    → e ≤ 9
    → parse_row t ≡ some rest
    → parse_row (run_length e ++ t) ≡ some (replicate e none ++ rest)
unfolding parse_row
parse_row-run_length zero t rest le h = h
parse_row-run_length (suc n) t rest le h =
    let digit : is_digit (b'0' + suc n) ≡ true = ground arith in
    let count : (b'0' + suc n) - b'0' ≡ suc n = omega arith in rw (parse_row, h, digit, count) refl

replicate-suc : (e : ℕ) (xs : Row) → replicate (suc e) none ++ xs ≡ replicate e none ++ none ∷ xs
replicate-suc zero xs = refl
replicate-suc (suc e) xs = ap (λ t. none ∷ t) (replicate-suc e xs)

parse_row-piece :
    (p : Piece) (t : Text) (rest : Row)
    → parse_row t ≡ some rest
    → parse_row (symbol p ∷ t) ≡ some (some p ∷ rest)
unfolding parse_row
parse_row-piece p t rest h = rw (parse_row, h, symbol_no_digit p, piece_of_symbol-symbol p) refl

run_length-nil : (e : ℕ) → run_length e ++ [] ≡ run_length e
run_length-nil zero = refl
run_length-nil (suc e) = refl

parse_row-print_row :
    (row : Row) (e : ℕ)
    → e + length row ≤ 9
    → parse_row (print_row e row) ≡ some (replicate e none ++ row)
unfolding print_row parse_row
parse_row-print_row [] e le =
    ap parse_row (sym (run_length-nil e)) ∙ parse_row-run_length e [] [] (omega (arith, le)) refl
parse_row-print_row (none ∷ xs) e le =
    parse_row-print_row xs (suc e) (omega (arith, le)) ∙ ap some (replicate-suc e xs)
parse_row-print_row (some p ∷ xs) e le =
    parse_row-run_length e (symbol p ∷ print_row 0 xs) (some p ∷ xs) (omega (arith, le))
      (parse_row-piece p (print_row 0 xs) xs (parse_row-print_row xs 0 (omega (arith, le))))

-- Without a character.
abbrev pub Lacks : ℕ → Text → Type 0
Lacks sep t = any (λ c. c == sep) t ≡ false

pub Lacks-append : (sep : ℕ) (s t : Text) → Lacks sep s → Lacks sep t → Lacks sep (s ++ t)
Lacks-append sep [] t hs ht = ht
Lacks-append sep (c ∷ s) t hs ht = ground (arith, hs, Lacks-append sep s t)

module _ (sep : ℕ) (low : sep < 48) where
  run_length-Lacks : (e : ℕ) → Lacks sep (run_length e)
  run_length-Lacks zero = refl
  run_length-Lacks (suc e) = ground (arith, low)

  pub print_row-Lacks : (row : Row) (e : ℕ) → Lacks sep (print_row e row)
  unfolding print_row
  print_row-Lacks [] e = run_length-Lacks e
  print_row-Lacks (none ∷ xs) e = print_row-Lacks xs (suc e)
  print_row-Lacks (some p ∷ xs) e =
      Lacks-append sep (run_length e) (symbol p ∷ print_row 0 xs) (run_length-Lacks e)
        (rw (symbol_other p sep low) (print_row-Lacks xs 0))

pub split-Lacks : (sep : ℕ) (t : Text) → Lacks sep t → split sep t ≡ t ∷ []
unfolding split
split-Lacks sep [] h = refl
split-Lacks sep (c ∷ t) h = elim (Bool-cases (c == sep)) [
  | inl e ↦ absurd (cc (rw e at h))
  | inr e ↦ rw (split, e, split-Lacks sep t (rw e at h)) refl
]

pub split-append : (sep : ℕ) (t u : Text) → Lacks sep t → split sep (t ++ sep ∷ u) ≡ t ∷ split sep u
unfolding split
split-append sep [] u h = let self : (sep == sep) ≡ true = ground arith in rw self refl
split-append sep (c ∷ t) u h = elim (Bool-cases (c == sep)) [
  | inl e ↦ absurd (cc (rw e at h))
  | inr e ↦ rw (split, e, split-append sep t u (rw e at h)) refl
]

parse_rows-print_placement :
    (row : Row) (rows : Board)
    → All (λ (r : Row). length r ≡ 8) (row ∷ rows)
    → parse_rows (split b'/' (print_placement (row ∷ rows))) ≡ some (row ∷ rows)
unfolding print_placement parse_rows
parse_rows-print_placement row [] h =
    rw
      (
        split-Lacks b'/' (print_row 0 row) (print_row-Lacks b'/' (omega arith) row 0),
        parse_rows,
        parse_row-print_row row 0 (omega (arith, h.0)),
      )
      refl
parse_rows-print_placement row (next ∷ rows) h =
    rw
      (
        split-append b'/' (print_row 0 row) (print_placement (next ∷ rows))
            (print_row-Lacks b'/' (omega arith) row 0),
        parse_rows,
        parse_row-print_row row 0 (omega (arith, h.0)),
        parse_rows-print_placement next rows h.1,
      )
      refl

all_eight :
    (rows : Board)
    → All (λ (r : Row). length r ≡ 8) rows
    → all (λ (row : Row). length row == 8) rows ≡ true
all_eight [] h = refl
all_eight (r ∷ rows) h = ground (arith, h.0, all_eight rows h.1)

-- The placement that `boardToFEN` writes for a board of eight rows and columns is read back by
-- `loadFEN` as that board.
pub parse_placement-print_placement :
    (b : Board) → IsBoard b → parse_placement (print_placement b) ≡ some b
unfolding parse_placement
parse_placement-print_placement [] h = absurd (omega (arith, h.rows))
parse_placement-print_placement (row ∷ rows) h =
    rw (parse_rows-print_placement row rows h.columns, all_eight (row ∷ rows) h.columns, h.rows)
      refl
