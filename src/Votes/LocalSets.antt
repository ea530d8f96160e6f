-- ===== src/Votes/LocalSets.antt =====
-- The local backend of Chess-Backend/src/services/rematchVotes.js holds the votes of each game.
use end_to_end_kubernetes_ch.Base.{
  ℕ, ◌≡◌, ◌∙◌, refl, sym, ap, ap₂, inl, inr, true, List, [], ◌∷◌, arith, ◌==◌, if◌then◌else◌,
  length, Bool-cases, Option-cases,
}
use end_to_end_kubernetes_ch.Rooms.Rematch.{add_vote}
use end_to_end_kubernetes_ch.Votes.{
  counted, VoteMap, get_set, put_set, delete_set, add_member, delete_member, set_of, local_add,
  local_remove, local_clear, Call, adds, removes, clears, local_call, answers, vote_call,
}
use end_to_end_kubernetes_ch.Votes.Counts.{
  voters, length-voters, voters-add_vote, voters-remove_vote, voters-clear_votes,
}

set_of-put_set :
    (k : ℕ) (set : List ℕ) (j : ℕ) (m : VoteMap)
    → set_of j (put_set k set m) ≡ (if k == j then set else set_of j m)
set_of-put_set k set j [] = ground arith
set_of-put_set k set j ((i, old) ∷ m) = ground (arith, set_of-put_set k set j m)

set_of-delete_set :
    (k j : ℕ) (m : VoteMap) → set_of j (delete_set k m) ≡ (if k == j then [] else set_of j m)
set_of-delete_set k j [] = ground arith
set_of-delete_set k j ((i, old) ∷ m) = ground (arith, set_of-delete_set k j m)

eq_of_test : (g j : ℕ) → (g == j) ≡ true → g ≡ j
eq_of_test g j q = ground arith

-- The map holds the votes of each game.
abbrev pub Holds : VoteMap → List (ℕ × ℕ) → Type 0
Holds m votes = (j : ℕ) → set_of j m ≡ voters j votes

local_add-Holds :
    (g u : ℕ) (m : VoteMap) (votes : List (ℕ × ℕ))
    → Holds m votes
    → ((local_add g u m).1 ≡ (vote_call (adds g u) votes).1)
      × Holds (local_add g u m).0 (vote_call (adds g u) votes).0
unfolding local_add
local_add-Holds g u m votes h = elim (Bool-cases (g == 0)) [
  | inl e ↦ rw (local_add, e) (refl, h)
  | inr e ↦ elim (Bool-cases (u == 0)) [
    | inl l ↦ rw (local_add, e, l) (refl, h)
    | inr l ↦
        rw (local_add, e, l)
          (
            ap counted (ap length (added g (ground arith)) ∙ length-voters g (add_vote g u votes)),
            λ j. elim (Bool-cases (g == j)) [
              | inl k ↦ (rw k at (set_of-put_set g (add_member u (set_of g m)) j m)) ∙ added j k
              | inr k ↦
                  (rw k at (set_of-put_set g (add_member u (set_of g m)) j m))
                  ∙ h j
                  ∙ sym (rw k at (voters-add_vote g u j votes))
            ],
          )
  ]
]
  where
    added : (j : ℕ) → (g == j) ≡ true → add_member u (set_of g m) ≡ voters j (add_vote g u votes)
    added j k = ap (add_member u) (h g) ∙ sym (rw k at (voters-add_vote g u j votes))

local_remove-Holds :
    (g u : ℕ) (m : VoteMap) (votes : List (ℕ × ℕ))
    → Holds m votes
    → ((local_remove g u m).1 ≡ (vote_call (removes g u) votes).1)
      × Holds (local_remove g u m).0 (vote_call (removes g u) votes).0
unfolding local_remove
local_remove-Holds g u m votes h = elim (Bool-cases (g == 0)) [
  | inl e ↦ rw (local_remove, e) (refl, h)
  | inr e ↦ elim (Option-cases (get_set g m)) [
    | inl k ↦
        rw (local_remove, e, k)
          (
            refl,
            λ j. elim (Bool-cases (g == j)) [
              | inl q ↦
                  let empty : voters j votes ≡ [] = sym ((rw (set_of, k) at (h g)) ∙ same j q) in
                  h j ∙ empty ∙ sym (rw (q, empty) at (voters-remove_vote g u j votes))
              | inr q ↦ h j ∙ sym (rw q at (voters-remove_vote g u j votes))
            ],
          )
    | inr (set, k) ↦
        rw (local_remove, e, k)
          (
            refl,
            λ j. elim (Bool-cases (g == j)) [
              | inl q ↦
                  (rw q at (set_of-put_set g (delete_member u set) j m))
                  ∙ ap (delete_member u) ((rw (set_of, k) at (h g)) ∙ same j q)
                  ∙ sym (rw q at (voters-remove_vote g u j votes))
              | inr q ↦
                  (rw q at (set_of-put_set g (delete_member u set) j m))
                  ∙ h j
                  ∙ sym (rw q at (voters-remove_vote g u j votes))
            ],
          )
  ]
]
  where
    same : (j : ℕ) → (g == j) ≡ true → voters g votes ≡ voters j votes
    same j q = ap (λ a. voters a votes) (eq_of_test g j q)

local_clear-Holds :
    (g : ℕ) (m : VoteMap) (votes : List (ℕ × ℕ))
    → Holds m votes
    → ((local_clear g m).1 ≡ (vote_call (clears g) votes).1)
      × Holds (local_clear g m).0 (vote_call (clears g) votes).0
unfolding local_clear
local_clear-Holds g m votes h = elim (Bool-cases (g == 0)) [
  | inl e ↦ rw (local_clear, e) (refl, h)
  | inr e ↦
      rw (local_clear, e)
        (refl, λ j. ground (arith, h j, set_of-delete_set g j m, voters-clear_votes g j votes))
]

pub answers-local :
    (cs : List Call) (m : VoteMap) (votes : List (ℕ × ℕ))
    → Holds m votes
    → answers local_call cs m ≡ answers vote_call cs votes
answers-local [] m votes h = refl
answers-local (adds g u ∷ cs) m votes h =
    let (e, k) = local_add-Holds g u m votes h in
    ap₂ (λ a b. a ∷ b) e (answers-local cs (local_add g u m).0 _ k)
answers-local (removes g u ∷ cs) m votes h =
    let (e, k) = local_remove-Holds g u m votes h in
    ap₂ (λ a b. a ∷ b) e (answers-local cs (local_remove g u m).0 _ k)
answers-local (clears g ∷ cs) m votes h =
    let (e, k) = local_clear-Holds g m votes h in
    ap₂ (λ a b. a ∷ b) e (answers-local cs (local_clear g m).0 _ k)
