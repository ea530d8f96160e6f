-- ===== src/Engine/Moves.antt =====
-- `rawMoves` and `appMv` of chessEngine.js: the moves of a piece before the king's safety.
use end_to_end_kubernetes_ch.Base.{
  ℕ, zero, suc, Bool, true, false, not, Option, none, some, List, [], ◌∷◌, ◌++◌, ◌&&◌, ◌==◌,
  if◌then◌else◌, ℤ, pos, negsuc, ◌+ℤ◌,
}
use end_to_end_kubernetes_ch.Engine.{
  Color, white, black, Kind, pawn, knight, bishop, rook, queen, king, piece, Cell, Board, Square,
  Castling, opponent, is_color, square?, cell, put,
}

-- The body of the loop at an empty square and at one that holds a piece; `rest` is what the later
-- rounds push.
abbrev pub slide_at : Color → Square → Cell → List Square → List Square
slide_at opp s none rest = s ∷ rest
slide_at opp s (some p) rest = if is_color opp (some p) then s ∷ [] else []

abbrev pub slide_from : Board → Color → Option Square → List Square → List Square
slide_from b opp none rest = []
slide_from b opp (some s) rest = slide_at opp s (cell b s.0 s.1) rest

-- The `while` loop of `sl`, from the first square on. Eight rounds of fuel: see `Slides`.
unfoldable pub slide : ℕ → Board → Color → ℤ → ℤ → ℤ → ℤ → List Square
slide zero b opp dr dc nr nc = []
slide (suc fuel) b opp dr dc nr nc =
    let rest = slide fuel b opp dr dc (nr +ℤ dr) (nc +ℤ dc) in slide_from b opp (square? nr nc) rest

-- `sl(dr, dc)`
unfoldable pub sl : Board → Color → ℕ → ℕ → ℤ × ℤ → List Square
sl b opp r c (dr, dc) = slide 8 b opp dr dc (pos r +ℤ dr) (pos c +ℤ dc)

abbrev pub minus_one : ℤ
minus_one = negsuc 0

-- `if (inB(nr, nc) && p(board[nr][nc])) mv.push([nr, nc])`
abbrev pub push_if : (Square → Bool) → Option Square → List Square
push_if p none = []
push_if p (some s) = if p s then s ∷ [] else []

-- One step of a knight or a king: on the board, and not onto an own piece.
unfoldable pub hop : Board → Color → ℕ → ℕ → ℤ × ℤ → List Square
hop b col r c (dr, dc) =
    push_if (λ s. not (is_color col (cell b s.0 s.1))) (square? (pos r +ℤ dr) (pos c +ℤ dc))

abbrev pub collect : (ℤ × ℤ → List Square) → List (ℤ × ℤ) → List Square
collect f [] = []
collect f (d ∷ ds) = f d ++ collect f ds

abbrev pub knight_steps : List (ℤ × ℤ)
knight_steps =
    (negsuc 1, negsuc 0)
    ∷ (negsuc 1, pos 1)
    ∷ (negsuc 0, negsuc 1)
    ∷ (negsuc 0, pos 2)
    ∷ (pos 1, negsuc 1)
    ∷ (pos 1, pos 2)
    ∷ (pos 2, negsuc 0)
    ∷ (pos 2, pos 1)
    ∷ []

abbrev pub king_steps : List (ℤ × ℤ)
king_steps =
    (negsuc 0, negsuc 0)
    ∷ (negsuc 0, pos 0)
    ∷ (negsuc 0, pos 1)
    ∷ (pos 0, negsuc 0)
    ∷ (pos 0, pos 1)
    ∷ (pos 1, negsuc 0)
    ∷ (pos 1, pos 0)
    ∷ (pos 1, pos 1)
    ∷ []

abbrev pub diagonals : List (ℤ × ℤ)
diagonals = (negsuc 0, negsuc 0) ∷ (negsuc 0, pos 1) ∷ (pos 1, negsuc 0) ∷ (pos 1, pos 1) ∷ []

abbrev pub straights : List (ℤ × ℤ)
straights = (negsuc 0, pos 0) ∷ (pos 1, pos 0) ∷ (pos 0, negsuc 0) ∷ (pos 0, pos 1) ∷ []

-- `d`, the direction in which a pawn moves
abbrev pub forward : Color → ℤ
forward white = negsuc 0
forward black = pos 1

-- `2 * d`
abbrev pub forward_twice : Color → ℤ
forward_twice white = negsuc 1
forward_twice black = pos 2

-- `st`, the row on which a pawn starts
abbrev pub start_row : Color → ℕ
start_row white = 6
start_row black = 1

abbrev pub is_empty : Cell → Bool
is_empty none = true
is_empty (some p) = false

-- The double step: `board[r + 2 * d][c]` is empty.
unfoldable pub pawn_double : Board → Color → ℕ → ℕ → List Square
pawn_double b col r c =
    push_if (λ s. r == start_row col && is_empty (cell b s.0 s.1))
      (square? (pos r +ℤ forward_twice col) (pos c))

abbrev pub pushes_from : Board → Option Square → List Square → List Square
pushes_from b none double = []
pushes_from b (some s) double = if is_empty (cell b s.0 s.1) then s ∷ double else []

unfoldable pub pawn_pushes : Board → Color → ℕ → ℕ → List Square
pawn_pushes b col r c =
    pushes_from b (square? (pos r +ℤ forward col) (pos c)) (pawn_double b col r c)

abbrev pub is_ep : Option Square → Square → Bool
is_ep none s = false
is_ep (some e) s = e.0 == s.0 && e.1 == s.1

-- Both `if`s of the source's loop over `dc`: a capture, and en passant.
unfoldable pub pawn_capture : Board → Color → ℕ → ℕ → Option Square → ℤ → List Square
pawn_capture b col r c ep dc =
    let target = square? (pos r +ℤ forward col) (pos c +ℤ dc) in
    push_if (λ s. is_color (opponent col) (cell b s.0 s.1)) target ++ push_if (is_ep ep) target

abbrev pub castle_row : Color → ℕ
castle_row white = 7
castle_row black = 0

-- `cast[col + "K"]` and `cast[col + "Q"]`
abbrev pub king_side : Castling → Color → Bool
king_side t white = t.wk
king_side t black = t.bk

abbrev pub queen_side : Castling → Color → Bool
queen_side t white = t.wq
queen_side t black = t.bq

abbrev pub push_when : Bool → Square → List Square
push_when true s = s ∷ []
push_when false s = []

-- `cast[col + "K"] && !board[row][5] && !board[row][6]`
unfoldable pub can_castle_king : Board → Color → Castling → Bool
can_castle_king b col t =
    let row = castle_row col in
    king_side t col && (is_empty (cell b row 5) && is_empty (cell b row 6))

-- `cast[col + "Q"] && !board[row][3] && !board[row][2] && !board[row][1]`
unfoldable pub can_castle_queen : Board → Color → Castling → Bool
can_castle_queen b col t =
    let row = castle_row col in
    queen_side t col
    && (is_empty (cell b row 3) && (is_empty (cell b row 2) && is_empty (cell b row 1)))

-- `if (cast) { … }` of the king's moves
unfoldable pub castles : Board → Color → ℕ → ℕ → Option Castling → List Square
castles b col r c none = []
castles b col r c (some t) =
    let row = castle_row col in
    if r == row && c == 4
    then push_when (can_castle_king b col t) (row, 6)
      ++ push_when (can_castle_queen b col t) (row, 2)
    else []

-- The moves of a piece of kind `t` and colour `col` that stands at `r`, `c`.
unfoldable pub piece_moves :
    Board → Color → Kind → ℕ → ℕ → Option Square → Option Castling → List Square
piece_moves b col pawn r c ep cast =
    pawn_pushes b col r c
    ++ (pawn_capture b col r c ep (negsuc 0) ++ pawn_capture b col r c ep (pos 1))
piece_moves b col knight r c ep cast = collect (hop b col r c) knight_steps
piece_moves b col bishop r c ep cast = collect (sl b (opponent col) r c) diagonals
piece_moves b col rook r c ep cast = collect (sl b (opponent col) r c) straights
piece_moves b col queen r c ep cast = collect (sl b (opponent col) r c) (diagonals ++ straights)
piece_moves b col king r c ep cast = collect (hop b col r c) king_steps ++ castles b col r c cast

-- `rawMoves`
unfoldable pub raw_moves : Board → ℕ → ℕ → Option Square → Option Castling → List Square
raw_moves b r c ep cast = elim (cell b r c) [
  | none ↦ []
  | some p ↦ elim p [ piece col t ↦ piece_moves b col t r c ep cast ]
]

-- `appMv`
unfoldable pub app_mv : Board → ℕ → ℕ → ℕ → ℕ → Board
app_mv b fr fc tr tc = put (put b tr tc (cell b fr fc)) fr fc none
