-- ===== src/Engine/Tests.antt =====
-- Small positions for the rules engine (Chess-Frontend/src/engine/chessEngine.js).
use end_to_end_kubernetes_ch.Base.{
  ℕ, suc, zero, ◌+◌, ◌≡◌, ◌∙◌, ◌<◌, ◌↔◌, refl, ◌⊎◌, inl, inr, true, none, some, arith, replicate,
  get_elem?, ◌==◌, ◌&&◌, if◌then◌else◌, pos, ◌+ℤ◌, Has,
}
use end_to_end_kubernetes_ch.Engine.{
  white, black, rook, king, piece, Cell, Row, Board, Square, cell, cell_of, put, IsBoard,
}
use end_to_end_kubernetes_ch.Engine.Moves.{sl, slide, raw_moves, piece_moves}
use end_to_end_kubernetes_ch.Engine.Check.{in_chk}
use end_to_end_kubernetes_ch.Engine.Slides.{Ray, sl-Ray}
use end_to_end_kubernetes_ch.Engine.InCheck.{LoneKing, Attacked, in_chk-Attacked}
use end_to_end_kubernetes_ch.Engine.Frame.{cell-put, put-IsBoard}
use end_to_end_kubernetes_ch.Engine.Safety.{raw_moves-Target, Target}

abbrev pub empty_board : Board
empty_board = replicate 8 (replicate 8 none)

-- A white king on the first row and a black rook on e8.
abbrev pub duel : ℕ → Board
duel c = put (put empty_board 7 c (some (piece white king))) 0 4 (some (piece black rook))

get_elem?-replicate :
    {A : Type 0} (n i : ℕ) (a : A)
    → (get_elem? (replicate n a) i ≡ none) ⊎ (get_elem? (replicate n a) i ≡ some a)
get_elem?-replicate zero i a = inl refl
get_elem?-replicate (suc n) zero a = inr refl
get_elem?-replicate (suc n) (suc i) a = get_elem?-replicate n i a

empty_row : (j : ℕ) → cell_of (some (replicate 8 none)) j ≡ none
empty_row j = elim (get_elem?-replicate {A = Cell} 8 j none) [
  | inl e ↦ rw (cell_of, e) refl
  | inr e ↦ rw (cell_of, e) refl
]

cell-empty_board : (i j : ℕ) → cell empty_board i j ≡ none
unfolding cell
cell-empty_board i j = elim (get_elem?-replicate {A = Row} 8 i (replicate 8 none)) [
  | inl e ↦ rw (cell, e) refl
  | inr e ↦ rw (cell, e) (empty_row j)
]

empty_board-IsBoard : IsBoard empty_board
empty_board-IsBoard = record {
  rows = refl;
  columns = (refl, (refl, (refl, (refl, (refl, (refl, (refl, (refl, tt))))))));
}

duel-IsBoard : (c : ℕ) → IsBoard (put empty_board 7 c (some (piece white king)))
duel-IsBoard c =
    put-IsBoard empty_board 7 c (some (piece white king)) empty_board-IsBoard (omega arith)

cell-duel :
    (c i j : ℕ)
    → c < 8
    → cell (duel c) i j ≡ (
        if 0 == i && 4 == j
        then some (piece black rook)
        else if 7 == i && c == j
        then some (piece white king)
        else none)
cell-duel c i j h =
    cell-put (put empty_board 7 c (some (piece white king))) 0 4 i j (some (piece black rook))
      (duel-IsBoard c) (omega arith) (omega arith)
    ∙ rw
        (
          cell-put empty_board 7 c i j (some (piece white king)) empty_board-IsBoard (omega arith)
              h,
          cell-empty_board i j,
        )
        refl

pub duel-LoneKing : (c : ℕ) → c < 8 → LoneKing (duel c) white (7, c)
duel-LoneKing c h = record {
  on_board = (omega arith, h);
  is_there = rw (cell-duel c 7 c h) (ground arith);
  lone = λ s e. ground (arith, cell-duel c s.0 s.1 h);
}

-- The rook on e8 runs down its column to the white king.
sl-Ray_example :
    ((s : Square)
      → Has s (sl (duel 4) white 0 4 (pos 1, pos 0))
        ↔ Ray (duel 4) white (pos 1) (pos 0) s (pos 0 +ℤ pos 1) (pos 4 +ℤ pos 0))
    × ((k : ℕ)
        → slide (k + 8) (duel 4) white (pos 1) (pos 0) (pos 0 +ℤ pos 1) (pos 4 +ℤ pos 0)
          ≡ sl (duel 4) white 0 4 (pos 1, pos 0))
sl-Ray_example =
    sl-Ray (duel 4) white 0 4 (pos 1) (pos 0) (inl (inl refl)) (omega arith) (omega arith)

in_chk-Attacked_example : (in_chk (duel 4) white ≡ true) ↔ Attacked (duel 4) black (7, 4)
in_chk-Attacked_example = in_chk-Attacked (duel 4) white (7, 4) (duel-LoneKing 4 (omega arith))

-- The rook on e8 may take the king's square or stop before it, and stays on the board.
raw_moves-Target_example : Target (duel 4) black (7, 4)
unfolding raw_moves piece_moves sl slide cell put ◌+ℤ◌
raw_moves-Target_example =
    raw_moves-Target (duel 4) 0 4 none none black rook (7, 4) (omega arith) (omega arith) refl tt
      (inr (inr (inr (inr (inr (inr (inl refl)))))))
