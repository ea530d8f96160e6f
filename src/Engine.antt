-- ===== src/Engine.antt =====
-- Chess-Frontend/src/engine/chessEngine.js: the data of the rules engine. A board is the source's
-- array of rows, a piece its two-letter string (colour and kind), an empty square its `null`.
-- The children hold the move generator (`Moves`), check and legality (`Check`), and the proofs.
pub mod Moves
pub mod Check
pub mod Slides
pub mod Targets
pub mod Attack
pub mod InCheck
pub mod Frame
pub mod Safety
pub mod Kings
pub mod Occupied
pub mod Captures
pub mod PawnSteps
pub mod Tests
use end_to_end_kubernetes_ch.Base.{
  ℕ, Bool, true, false, Option, none, some, List, [], ◌∷◌, map, get_elem?, set, replicate, ltb,
  ◌&&◌, ◌≡◌, length, All, if◌then◌else◌, ℤ, pos, negsuc,
}

pub data Color : Type 0 where
  white black : Color

pub data Kind : Type 0 where
  pawn knight bishop rook queen king : Kind

-- `"wP"` is `piece white pawn`.
pub data Piece : Type 0 where
  piece : Color → Kind → Piece

abbrev pub Cell : Type 0
Cell = Option Piece

abbrev pub Row : Type 0
Row = List Cell

abbrev pub Board : Type 0
Board = List Row

-- `[r, c]`
abbrev pub Square : Type 0
Square = ℕ × ℕ

-- `{ wK, wQ, bK, bQ }`
pub record Castling : Type 0 where
  pub wk : Bool
  pub wq : Bool
  pub bk : Bool
  pub bq : Bool

abbrev pub opponent : Color → Color
opponent white = black
opponent black = white

abbrev pub same_color : Color → Color → Bool
same_color white white = true
same_color black black = true
same_color _ _ = false

abbrev pub same_kind : Kind → Kind → Bool
same_kind pawn pawn = true
same_kind knight knight = true
same_kind bishop bishop = true
same_kind rook rook = true
same_kind queen queen = true
same_kind king king = true
same_kind _ _ = false

-- `pc`
abbrev pub pc : Cell → Option Color
pc none = none
pc (some (piece c k)) = some c

-- `pt`
abbrev pub pt : Cell → Option Kind
pt none = none
pt (some (piece c k)) = some k

-- `pc(x) === col`
abbrev pub is_color : Color → Cell → Bool
is_color col none = false
is_color col (some (piece c k)) = same_color c col

-- `x === col + "K"`
abbrev pub is_king : Color → Cell → Bool
is_king col none = false
is_king col (some (piece c k)) = same_color c col && same_kind k king

-- `inB`
abbrev pub in_b : ℤ → ℤ → Bool
in_b (pos r) (pos c) = ltb r 8 && ltb c 8
in_b (pos r) (negsuc c) = false
in_b (negsuc r) (pos c) = false
in_b (negsuc r) (negsuc c) = false

-- A pair of coordinates that passed `inB`, as indices.
abbrev pub square? : ℤ → ℤ → Option Square
square? (pos r) (pos c) = if in_b (pos r) (pos c) then some (r, c) else none
square? (pos r) (negsuc c) = none
square? (negsuc r) (pos c) = none
square? (negsuc r) (negsuc c) = none

abbrev pub cell_of : Option Row → ℕ → Cell
cell_of none c = none
cell_of (some row) c = elim (get_elem? row c) [ none ↦ none | some x ↦ x ]

-- `board[r][c]`
unfoldable pub cell : Board → ℕ → ℕ → Cell
cell b r c = cell_of (get_elem? b r) c

abbrev pub put_in : Board → ℕ → Option Row → ℕ → Cell → Board
put_in b r none c x = b
put_in b r (some row) c x = set b r (set row c x)

-- `board[r][c] = x`
unfoldable pub put : Board → ℕ → ℕ → Cell → Board
put b r c x = put_in b r (get_elem? b r) c x

abbrev pub home_row : Color → Row
home_row col =
    map (λ k. some (piece col k))
      (rook ∷ knight ∷ bishop ∷ queen ∷ king ∷ bishop ∷ knight ∷ rook ∷ [])

abbrev pub pawn_row : Color → Row
pawn_row col = replicate 8 (some (piece col pawn))

-- `initBoard`
unfoldable pub init_board : Board
init_board =
    home_row black
    ∷ pawn_row black
    ∷ replicate 8 none
    ∷ replicate 8 none
    ∷ replicate 8 none
    ∷ replicate 8 none
    ∷ pawn_row white
    ∷ home_row white
    ∷ []

-- Eight rows of eight squares.
pub record IsBoard (b : Board) : Type 0 where
  pub rows : length b ≡ 8
  pub columns : All (λ (row : Row). length row ≡ 8) b
