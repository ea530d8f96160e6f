-- ===== src/Game/Fen.antt =====
-- The piece placement of a FEN: written by `boardToFEN` (Chess-Frontend/src/engine/chessEngine.js)
-- and read by `loadFEN` (useChessGame.js). `FenFields` has the other fields.
use end_to_end_kubernetes_ch.Base.{
  ℕ, zero, suc, ◌+◌, ◌-◌, Bool, Option, none, some, List, [], ◌∷◌, ◌++◌, ◌&&◌, ◌==◌, leb,
  if◌then◌else◌, ◌>>=◌, replicate, length, all,
}
use end_to_end_kubernetes_ch.Engine.{
  white, black, Kind, pawn, knight, bishop, rook, queen, king, Piece, piece, Row, Board,
}
use end_to_end_kubernetes_ch.Game.{Text, letter}

-- `empty`, if it is not 0
abbrev pub run_length : ℕ → Text
run_length zero = []
run_length (suc n) = (b'0' + suc n) ∷ []

-- `pc(p) === "w" ? letter : letter.toLowerCase()`
abbrev pub symbol : Piece → ℕ
symbol (piece white k) = letter k
symbol (piece black k) = letter k + 32

-- One row, `empty` squares being counted already.
unfoldable pub print_row : ℕ → Row → Text
print_row empty [] = run_length empty
print_row empty (none ∷ xs) = print_row (suc empty) xs
print_row empty (some p ∷ xs) = run_length empty ++ symbol p ∷ print_row 0 xs

-- `rows.join("/")`
unfoldable pub print_placement : Board → Text
print_placement [] = []
print_placement (row ∷ []) = print_row 0 row
print_placement (row ∷ next ∷ rows) = print_row 0 row ++ b'/' ∷ print_placement (next ∷ rows)

abbrev pub kind_of_letter : ℕ → Option Kind
kind_of_letter c =
    if c == b'P'
    then some pawn
    else if c == b'N'
    then some knight
    else if c == b'B'
    then some bishop
    else if c == b'R'
    then some rook
    else if c == b'Q'
    then some queen
    else if c == b'K'
    then some king
    else none

-- `(symbol === symbol.toUpperCase() ? "w" : "b") + symbol.toUpperCase()`, for a piece's letter
abbrev pub piece_of_symbol : ℕ → Option Piece
piece_of_symbol c =
    if leb b'a' c
    then kind_of_letter (c - 32) >>= (λ k. some (piece black k))
    else kind_of_letter c >>= (λ k. some (piece white k))

abbrev pub is_digit : ℕ → Bool
is_digit c = leb b'0' c && leb c b'9'

-- One row of `restored`; a letter of no piece is `none`.
unfoldable pub parse_row : Text → Option Row
parse_row [] = some []
parse_row (c ∷ cs) = do
  rest ← parse_row cs
  (if is_digit c
      then some (replicate (c - b'0') none ++ rest)
      else piece_of_symbol c >>= (λ p. some (some p ∷ rest)))

-- `split` at a character
unfoldable pub split : ℕ → Text → List Text
split sep [] = [] ∷ []
split sep (c ∷ cs) =
    if c == sep
    then [] ∷ split sep cs
    else elim (split sep cs) [ [] ↦ (c ∷ []) ∷ [] | t ∷ ts ↦ (c ∷ t) ∷ ts ]

unfoldable pub parse_rows : List Text → Option Board
parse_rows [] = some []
parse_rows (t ∷ ts) = do row ← parse_row t; rows ← parse_rows ts; some (row ∷ rows)

-- `restored.length !== 8 || restored.some(row => row.length !== 8)` throws.
unfoldable pub parse_placement : Text → Option Board
parse_placement text = do
  rows ← parse_rows (split b'/' text)
  (if length rows == 8 && all (λ (row : Row). length row == 8) rows then some rows else none)
