-- ===== src/Store/Numbers.antt =====
-- The move numbers of a game: 1, 2, 3, … (`COALESCE(MAX(move_number),0)+1` of `persistMoveAtomic`).
use end_to_end_kubernetes_ch.Base.{
  ℕ, suc, ◌+◌, ◌≡◌, ◌∙◌, refl, sym, ap, subst, inl, inr, true, false, some, List, [], ◌∷◌, ◌++◌,
  arith, ◌==◌, Bool-cases, length,
}
use end_to_end_kubernetes_ch.Engine.{Color}
use end_to_end_kubernetes_ch.Store.{MoveRow, Tables}
use end_to_end_kubernetes_ch.Store.Persist.{
  ChessJs, Persisted, max_number, moves_of, move_row, persist_move,
}
use end_to_end_kubernetes_ch.Store.Recorded.{persist_move-Accepted}

-- The rows are numbered `k`, `k + 1`, …
abbrev pub Numbered : ℕ → List MoveRow → Type 0
Numbered k [] = Unit
Numbered k (m ∷ ms) = (m.number ≡ k) × Numbered (suc k) ms

-- The moves of every game are numbered from 1.
abbrev pub IsNumbered : List MoveRow → Type 0
IsNumbered rows = (game : ℕ) → Numbered 1 (moves_of game rows)

max_number-Numbered :
    (k : ℕ) (m : MoveRow) (ms : List MoveRow)
    → Numbered k (m ∷ ms)
    → suc (max_number (m ∷ ms)) ≡ k + suc (length ms)
max_number-Numbered k m [] h = ground (arith, h.0)
max_number-Numbered k m (n ∷ ms) h = ground (arith, h.0, max_number-Numbered (suc k) n ms h.1)

next_number : (ms : List MoveRow) → Numbered 1 ms → suc (max_number ms) ≡ 1 + length ms
next_number [] h = refl
next_number (m ∷ ms) h = max_number-Numbered 1 m ms h

Numbered-append :
    (k : ℕ) (ms : List MoveRow) (row : MoveRow)
    → Numbered k ms
    → row.number ≡ k + length ms
    → Numbered k (ms ++ row ∷ [])
Numbered-append k [] row h e = (omega (arith, e), tt)
Numbered-append k (m ∷ ms) row h e = (h.0, Numbered-append (suc k) ms row h.1 (omega (arith, e)))

moves_of-append_same :
    (game : ℕ) (ms : List MoveRow) (row : MoveRow)
    → (row.game_id == game) ≡ true
    → moves_of game (ms ++ row ∷ []) ≡ moves_of game ms ++ row ∷ []
moves_of-append_same game [] row e = rw e refl
moves_of-append_same game (m ∷ ms) row e = elim (Bool-cases (m.game_id == game)) [
  | inl h ↦ rw h (ap (λ t. m ∷ t) (moves_of-append_same game ms row e))
  | inr h ↦ rw h (moves_of-append_same game ms row e)
]

moves_of-append_other :
    (game : ℕ) (ms : List MoveRow) (row : MoveRow)
    → (row.game_id == game) ≡ false
    → moves_of game (ms ++ row ∷ []) ≡ moves_of game ms
moves_of-append_other game [] row e = rw e refl
moves_of-append_other game (m ∷ ms) row e = elim (Bool-cases (m.game_id == game)) [
  | inl h ↦ rw h (ap (λ t. m ∷ t) (moves_of-append_other game ms row e))
  | inr h ↦ rw h (moves_of-append_other game ms row e)
]

-- A row numbered one past its game's largest number keeps the numbering of every game.
IsNumbered-append :
    (rows : List MoveRow) (row : MoveRow)
    → IsNumbered rows
    → row.number ≡ suc (max_number (moves_of row.game_id rows))
    → IsNumbered (rows ++ row ∷ [])
IsNumbered-append rows row h e game = elim (Bool-cases (row.game_id == game)) [
  | inl q ↦
      let same : row.game_id ≡ game = ground (arith, q) in
      subst (Numbered 1) (sym (moves_of-append_same game rows row q)) (
        Numbered-append 1 (moves_of game rows) row (h game) (
          e
          ∙ ap (λ g. suc (max_number (moves_of g rows))) same
          ∙ next_number (moves_of game rows) (h game)))
  | inr q ↦ subst (Numbered 1) (sym (moves_of-append_other game rows row q)) (h game)
]

-- Every call of `persistMoveAtomic` that commits keeps the moves of every game numbered 1, 2, 3, …
pub persist_move-IsNumbered :
    (chess : ChessJs) (game : ℕ) (col : Color) (request : chess.Request) (db : Tables)
    {db' : Tables} {v : Persisted chess}
    → persist_move chess game col request db ≡ some (db', v)
    → IsNumbered db.moves
    → IsNumbered db'.moves
persist_move-IsNumbered chess game col request db h n =
    elim (persist_move-Accepted chess game col request db h) [
      | inl r ↦ subst (λ (x : Tables). IsNumbered x.moves) (sym (r.0)) n
      | inr (after, san, ok, p, r) ↦
          subst (λ (x : Tables). IsNumbered x.moves) (sym p)
            (IsNumbered-append db.moves (move_row chess game col after san db) n refl)
    ]
