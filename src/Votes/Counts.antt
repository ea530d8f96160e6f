-- ===== src/Votes/Counts.antt =====
-- The vote set that the handlers of the rooms use, as the sets of its games
-- (Chess-Backend/src/services/rematchVotes.js).
use end_to_end_kubernetes_ch.Base.{
  ℕ, suc, ◌+◌, ◌-◌, ◌≤◌, ◌≡◌, ◌∙◌, refl, sym, ap, inl, inr, Bool, true, false, not, List, [], ◌∷◌,
  ◌++◌, arith, ◌==◌, ◌&&◌, ◌||◌, if◌then◌else◌, any, filter, length, Bool-cases,
}
use end_to_end_kubernetes_ch.Rooms.Rematch.{
  has_vote, add_vote, vote_count, remove_vote, clear_votes,
}
use end_to_end_kubernetes_ch.Votes.{add_member, delete_member}

-- No pair stands twice.
abbrev pub Distinct : List (ℕ × ℕ) → Type 0
Distinct [] = Unit {0}
Distinct (v ∷ votes) = (has_vote v.0 v.1 votes ≡ false) × Distinct votes

has_vote-append :
    (g u : ℕ) (votes : List (ℕ × ℕ)) (j v : ℕ)
    → has_vote j v (votes ++ (g, u) ∷ []) ≡ (g == j && u == v || has_vote j v votes)
has_vote-append g u [] j v = ground arith
has_vote-append g u (x ∷ votes) j v = ground (arith, has_vote-append g u votes j v)

pub has_vote-add_vote :
    (g u : ℕ) (votes : List (ℕ × ℕ)) (j v : ℕ)
    → has_vote j v (add_vote g u votes) ≡ (g == j && u == v || has_vote j v votes)
has_vote-add_vote g u votes j v = elim (Bool-cases (has_vote g u votes)) [
  | inr e ↦ rw e (has_vote-append g u votes j v)
  | inl e ↦ elim (Bool-cases (g == j && u == v)) [
    | inr k ↦ rw (e, k) refl
    | inl k ↦
        let p : g ≡ j = ground (arith, k) in
        let q : u ≡ v = ground (arith, k) in
        let there : has_vote j v votes ≡ true =
          ap (λ a. has_vote a v votes) (sym p) ∙ ap (λ b. has_vote g b votes) (sym q) ∙ e in
        rw (e, k, there) refl
  ]
]

vote_count-append :
    (g u : ℕ) (votes : List (ℕ × ℕ)) (j : ℕ)
    → vote_count j (votes ++ (g, u) ∷ []) ≡ vote_count j votes + (if g == j then 1 else 0)
vote_count-append g u [] j = omega arith
vote_count-append g u (x ∷ votes) j = omega (arith, vote_count-append g u votes j)

pub vote_count-add_vote :
    (g u : ℕ) (votes : List (ℕ × ℕ)) (j : ℕ)
    → vote_count j (add_vote g u votes) ≡ (
        if g == j && not (has_vote g u votes) then suc (vote_count j votes) else vote_count j votes)
vote_count-add_vote g u votes j = elim (Bool-cases (has_vote g u votes)) [
  | inl e ↦ rw e (ground arith)
  | inr e ↦ rw e (ground (arith, vote_count-append g u votes j))
]

pub has_vote-remove_vote :
    (g u : ℕ) (votes : List (ℕ × ℕ)) (j v : ℕ)
    → has_vote j v (remove_vote g u votes) ≡ (not (g == j && u == v) && has_vote j v votes)
has_vote-remove_vote g u [] j v = ground arith
has_vote-remove_vote g u (x ∷ votes) j v = ground (arith, has_vote-remove_vote g u votes j v)

not_voted :
    (g u : ℕ) (votes : List (ℕ × ℕ)) (j : ℕ)
    → has_vote g u votes ≡ false
    → vote_count j (remove_vote g u votes) ≡ vote_count j votes
not_voted g u [] j h = refl
not_voted g u (x ∷ votes) j h = ground (arith, not_voted g u votes j)

has_vote-le : (g u : ℕ) (votes : List (ℕ × ℕ)) → has_vote g u votes ≡ true → 1 ≤ vote_count g votes
has_vote-le g u [] h = cc
has_vote-le g u (x ∷ votes) h = ground (arith, has_vote-le g u votes)

pub vote_count-remove_vote :
    (g u : ℕ) (votes : List (ℕ × ℕ)) (j : ℕ)
    → Distinct votes
    → vote_count j (remove_vote g u votes)
      ≡ (if g == j && has_vote g u votes then vote_count j votes - 1 else vote_count j votes)
vote_count-remove_vote g u [] j h = ground arith
vote_count-remove_vote g u ((k, w) ∷ votes) j (fresh, h) = elim (Bool-cases (k == g && w == u)) [
  | inl e ↦
      let p : k ≡ g = ground (arith, e) in
      let q : w ≡ u = ground (arith, e) in
      let gone : has_vote g u votes ≡ false =
        ap (λ a. has_vote a u votes) (sym p) ∙ ap (λ b. has_vote k b votes) (sym q) ∙ fresh in
      ground (arith, e, not_voted g u votes j gone)
  | inr e ↦ ground (arith, e, vote_count-remove_vote g u votes j h, has_vote-le g u votes)
]

pub has_vote-clear_votes :
    (g : ℕ) (votes : List (ℕ × ℕ)) (j v : ℕ)
    → has_vote j v (clear_votes g votes) ≡ (not (g == j) && has_vote j v votes)
has_vote-clear_votes g [] j v = ground arith
has_vote-clear_votes g (x ∷ votes) j v = ground (arith, has_vote-clear_votes g votes j v)

pub vote_count-clear_votes :
    (g : ℕ) (votes : List (ℕ × ℕ)) (j : ℕ)
    → vote_count j (clear_votes g votes) ≡ (if g == j then 0 else vote_count j votes)
vote_count-clear_votes g [] j = ground arith
vote_count-clear_votes g (x ∷ votes) j = ground (arith, vote_count-clear_votes g votes j)

has_vote-filter :
    (p : ℕ × ℕ → Bool) (j v : ℕ) (votes : List (ℕ × ℕ))
    → has_vote j v votes ≡ false
    → has_vote j v (filter p votes) ≡ false
has_vote-filter p j v [] h = refl
has_vote-filter p j v (x ∷ votes) h = ground (arith, has_vote-filter p j v votes)

pub Distinct-filter :
    (p : ℕ × ℕ → Bool) (votes : List (ℕ × ℕ)) → Distinct votes → Distinct (filter p votes)
Distinct-filter p [] h = h
Distinct-filter p (x ∷ votes) (fresh, h) = elim (Bool-cases (p x)) [
  | inl e ↦ rw e (has_vote-filter p x.0 x.1 votes fresh, Distinct-filter p votes h)
  | inr e ↦ rw e (Distinct-filter p votes h)
]

Distinct-append :
    (g u : ℕ) (votes : List (ℕ × ℕ))
    → has_vote g u votes ≡ false
    → Distinct votes
    → Distinct (votes ++ (g, u) ∷ [])
Distinct-append g u [] new h = (refl, tt)
Distinct-append g u (x ∷ votes) new (fresh, h) = (
  ground (arith, new, fresh, has_vote-append g u votes x.0 x.1),
  Distinct-append g u votes (ground (arith, new)) h,
)

pub Distinct-add_vote :
    (g u : ℕ) (votes : List (ℕ × ℕ)) → Distinct votes → Distinct (add_vote g u votes)
Distinct-add_vote g u votes h = elim (Bool-cases (has_vote g u votes)) [
  | inl e ↦ rw e h
  | inr e ↦ rw e (Distinct-append g u votes e h)
]

-- The users who voted in a game, in the order of their votes.
abbrev pub voters : ℕ → List (ℕ × ℕ) → List ℕ
voters g [] = []
voters g (x ∷ votes) = if x.0 == g then x.1 ∷ voters g votes else voters g votes

pub length-voters : (g : ℕ) (votes : List (ℕ × ℕ)) → length (voters g votes) ≡ vote_count g votes
length-voters g [] = refl
length-voters g (x ∷ votes) = ground (arith, length-voters g votes)

any-voters :
    (g u : ℕ) (votes : List (ℕ × ℕ)) → any (λ v. v == u) (voters g votes) ≡ has_vote g u votes
any-voters g u [] = refl
any-voters g u (x ∷ votes) = ground (arith, any-voters g u votes)

voters-append :
    (g u j : ℕ) (votes : List (ℕ × ℕ))
    → voters j (votes ++ (g, u) ∷ [])
      ≡ (if g == j then voters j votes ++ u ∷ [] else voters j votes)
voters-append g u j [] = refl
voters-append g u j (x ∷ votes) = ground (arith, voters-append g u j votes)

pub voters-add_vote :
    (g u j : ℕ) (votes : List (ℕ × ℕ))
    → voters j (add_vote g u votes)
      ≡ (if g == j then add_member u (voters g votes) else voters j votes)
voters-add_vote g u j votes = elim (Bool-cases (g == j)) [
  | inl k ↦
      let p : g ≡ j = ground (arith, k) in
      let seen = any-voters g u votes in
      elim (Bool-cases (has_vote g u votes)) [
        | inl e ↦ rw (k, e, seen ∙ e) (ap (λ a. voters a votes) (sym p))
        | inr e ↦
            rw (k, e, seen ∙ e)
              (voters-append g u j votes ∙ rw k (ap (λ a. voters a votes ++ u ∷ []) (sym p)))
      ]
  | inr k ↦ elim (Bool-cases (has_vote g u votes)) [
    | inl e ↦ rw (k, e) refl
    | inr e ↦ rw (k, e) (voters-append g u j votes ∙ rw k refl)
  ]
]

pub voters-remove_vote :
    (g u j : ℕ) (votes : List (ℕ × ℕ))
    → voters j (remove_vote g u votes)
      ≡ (if g == j then delete_member u (voters j votes) else voters j votes)
voters-remove_vote g u j [] = ground arith
voters-remove_vote g u j (x ∷ votes) = ground (arith, voters-remove_vote g u j votes)

pub voters-clear_votes :
    (g j : ℕ) (votes : List (ℕ × ℕ))
    → voters j (clear_votes g votes) ≡ (if g == j then [] else voters j votes)
voters-clear_votes g j [] = ground arith
voters-clear_votes g j (x ∷ votes) = ground (arith, voters-clear_votes g j votes)
