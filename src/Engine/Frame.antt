-- ===== src/Engine/Frame.antt =====
-- What a write to the board changes: `board[r][c] = x`, `appMv`, and the rook's part of castling.
use end_to_end_kubernetes_ch.Base.{
  ℕ, ◌<◌, ◌≡◌, ◌∙◌, inl, inr, some, List, arith, if◌then◌else◌, ◌&&◌, ◌==◌, ==_iff, get_elem?, set,
  length, length-set, get_elem?-set_self, get_elem?-set_ne, get_elem?_total, All-set, All-get_elem?,
  Bool-cases,
}
use end_to_end_kubernetes_ch.Engine.{Cell, Row, Board, IsBoard, cell_of, cell, put_in, put}

row_of :
    (b : Board) (r : ℕ)
    → IsBoard b
    → r < 8
    → (row : Row) × (get_elem? b r ≡ some row) × (length row ≡ 8)
row_of b r h lt =
    let (row, e) = get_elem?_total b r (omega arith) in (row, e, All-get_elem? _ b r h.columns e)

pub put-IsBoard : (b : Board) (r c : ℕ) (x : Cell) → IsBoard b → r < 8 → IsBoard (put b r c x)
unfolding put
put-IsBoard b r c x h lt =
    let (row, e, w) = row_of b r h lt in
    rw (e, put_in)
      (record {
        rows = length-set b r _ ∙ h.rows;
        columns = All-set _ b r (set row c x) h.columns (length-set row c x ∙ w);
      })

get_elem?-set :
    {A : Type 0} (xs : List A) (i j : ℕ) (v : A)
    → i < length xs
    → get_elem? (set xs i v) j ≡ (if i == j then some v else get_elem? xs j)
get_elem?-set xs i j v h = elim (Bool-cases (i == j)) [
  | inl e ↦ rw (e, ← (==_iff i j).0 e) (get_elem?-set_self xs i v h)
  | inr e ↦ rw e (get_elem?-set_ne xs i j v (λ q. ground arith))
]

cell_of-set :
    (row : Row) (c j : ℕ) (x : Cell)
    → c < length row
    → cell_of (some (set row c x)) j ≡ (if c == j then x else cell_of (some row) j)
cell_of-set row c j x h = elim (Bool-cases (c == j)) [
  | inl e ↦ rw (get_elem?-set row c j x h, cell_of, e)
  | inr e ↦ rw (get_elem?-set row c j x h, cell_of, e)
]

-- The same with the row in hand.
cell-put_row :
    (b : Board) (r c i j : ℕ) (x : Cell) (row : Row)
    → get_elem? b r ≡ some row
    → r < length b
    → c < length row
    → cell (put b r c x) i j ≡ (if r == i && c == j then x else cell b i j)
unfolding put cell
cell-put_row b r c i j x row e hr hc = elim (Bool-cases (r == i)) [
  | inl q ↦
      rw (e, put_in, get_elem?-set b r i (set row c x) hr, q, cell_of-set row c j x hc)
        (rw (← (==_iff r i).0 q, e))
  | inr q ↦ rw (e, put_in, get_elem?-set b r i (set row c x) hr, q)
]

-- A write changes the square that it names, and no other.
pub cell-put :
    (b : Board) (r c i j : ℕ) (x : Cell)
    → IsBoard b
    → r < 8
    → c < 8
    → cell (put b r c x) i j ≡ (if r == i && c == j then x else cell b i j)
cell-put b r c i j x h hr hc =
    let (row, e, w) = row_of b r h hr in
    cell-put_row b r c i j x row e (omega arith) (omega (arith, w))
