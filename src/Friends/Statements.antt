-- ===== src/Friends/Statements.antt =====
-- The calls of Chess-Backend/src/models/Friendship.js in the parts that run undisturbed: no transaction
-- holds the queries of `sendRequest` and `respond` and their writes together, and the statements of other
-- calls come in between.
use Prim.Native.String.{String}
use end_to_end_kubernetes_ch.Base.{
  ℕ, zero, suc, Bool, not, none, some, List, [], ◌∷◌, ◌++◌, if◌then◌else◌, filter, get_elem?,
}
use end_to_end_kubernetes_ch.Store.{update_where}
use end_to_end_kubernetes_ch.Friends.{
  Circle, refused, clear, look_up, insert_request, has_row_id, accept_row, remove,
}

-- The table, and the inserts that calls of `sendRequest` have yet to make: requester and addressee.
pub record Desk : Type 0 where
  pub circle : Circle
  pub waiting : List (ℕ × ℕ)

abbrev pub without : ℕ → List (ℕ × ℕ) → List (ℕ × ℕ)
without i [] = []
without zero (x ∷ xs) = xs
without (suc i) (x ∷ xs) = x ∷ without i xs

-- The queries of a `sendRequest`; the insert of one that waits; the write of a `respond` to a request
-- that its query found, which asks for the id only; a `remove`.
pub data Statement : Type 0 where
  looks : ℕ → String → Statement
  inserts : ℕ → Statement
  writes : Bool → ℕ → Statement
  deletes : ℕ → ℕ → Statement

-- The insert; one that throws changes nothing.
abbrev pub insert_waiting : ℕ × ℕ → Circle → Circle
insert_waiting (requester, addressee) db = elim (insert_request requester addressee db) [
  | none ↦ db
  | some r ↦ r.0
]

-- The `UPDATE` or the `DELETE` of `respond`
abbrev pub answer_row : Bool → ℕ → Circle → Circle
answer_row accept id db = record db {
  rows =
      if accept
      then update_where (has_row_id id) accept_row db.rows
      else filter (λ s. not (has_row_id id s)) db.rows;
}

abbrev pub execute : Statement → Desk → Desk
execute (looks requester name) d = elim (look_up requester name d.circle) [
  | refused reply ↦ d
  | clear addressee ↦ record d { waiting = d.waiting ++ (requester, addressee) ∷ [] }
]
execute (inserts i) d = elim (get_elem? d.waiting i) [
  | none ↦ d
  | some pair ↦ record { circle = insert_waiting pair d.circle; waiting = without i d.waiting }
]
execute (writes accept id) d = record d { circle = answer_row accept id d.circle }
execute (deletes id user) d = record d { circle = (remove id user d.circle).0 }

abbrev pub execute_all : List Statement → Desk → Desk
execute_all [] d = d
execute_all (s ∷ rest) d = execute_all rest (execute s d)
