-- ===== src/Tournament/Shuffled.antt =====
-- `shuffle` of Chess-Backend/src/models/Tournament.js rearranges a list.
use end_to_end_kubernetes_ch.Base.{
  ℕ, zero, suc, ◌+◌, ◌%◌, ◌≡◌, ◌∙◌, refl, ap, inl, inr, Bool, none, some, List, [], ◌∷◌,
  if◌then◌else◌, get_elem?, set, arith, Option-cases,
}
use end_to_end_kubernetes_ch.Store.{count_where}
use end_to_end_kubernetes_ch.Tournament.Start.{swap, shuffle_from}

module _ {A : Type 0} (p : A → Bool) where
  abbrev tally : A → ℕ
  tally a = if p a then 1 else 0

  count_where-set :
      (xs : List A) (i : ℕ) (a v : A)
      → get_elem? xs i ≡ some a
      → count_where p (set xs i v) + tally a ≡ count_where p xs + tally v
  count_where-set [] i a v h = cc
  count_where-set (x ∷ xs) zero a v h =
      omega (arith, ap tally (ap (λ o. elim o [ none ↦ x | some b ↦ b ]) h))
  count_where-set (x ∷ xs) (suc i) a v h = omega (arith, count_where-set xs i a v h)

  get_elem?-set_twin :
      (xs : List A) (i j : ℕ) (a b : A)
      → get_elem? xs i ≡ some a
      → get_elem? xs j ≡ some b
      → get_elem? (set xs i b) j ≡ some b
  get_elem?-set_twin [] i j a b h k = cc
  get_elem?-set_twin (x ∷ xs) zero zero a b h k = refl
  get_elem?-set_twin (x ∷ xs) zero (suc j) a b h k = k
  get_elem?-set_twin (x ∷ xs) (suc i) zero a b h k = k
  get_elem?-set_twin (x ∷ xs) (suc i) (suc j) a b h k = get_elem?-set_twin xs i j a b h k

  swap-eq :
      (i j : ℕ) (xs : List A) (a b : A)
      → get_elem? xs i ≡ some a
      → get_elem? xs j ≡ some b
      → swap i j xs ≡ set (set xs i b) j a
  swap-eq i j xs a b h k = rw (swap, h, k) refl

  swap-none : (i j : ℕ) (xs : List A) → get_elem? xs i ≡ none → swap i j xs ≡ xs
  swap-none i j xs h = rw (swap, h) refl

  swap-none_right :
      (i j : ℕ) (xs : List A) (a : A)
      → get_elem? xs i ≡ some a
      → get_elem? xs j ≡ none
      → swap i j xs ≡ xs
  swap-none_right i j xs a h k = rw (swap, h, k) refl

  count_where-swap : (i j : ℕ) (xs : List A) → count_where p (swap i j xs) ≡ count_where p xs
  count_where-swap i j xs = elim (Option-cases (get_elem? xs i)) [
    | inl h ↦ ap (count_where p) (swap-none i j xs h)
    | inr (a, h) ↦ elim (Option-cases (get_elem? xs j)) [
      | inl k ↦ ap (count_where p) (swap-none_right i j xs a h k)
      | inr (b, k) ↦
          ap (count_where p) (swap-eq i j xs a b h k)
          ∙ omega (
            arith,
            count_where-set (set xs i b) j b a (get_elem?-set_twin xs i j a b h k),
            count_where-set xs i a b h,
          )
    ]
  ]

  -- A shuffle keeps the number of the elements that pass a test.
  pub count_where-shuffle_from :
      (draws : ℕ → ℕ) (i : ℕ) (xs : List A)
      → count_where p (shuffle_from draws i xs) ≡ count_where p xs
  count_where-shuffle_from draws zero xs = refl
  count_where-shuffle_from draws (suc i) xs =
      count_where-shuffle_from draws i (swap (suc i) (draws (suc i) % suc (suc i)) xs)
      ∙ count_where-swap (suc i) (draws (suc i) % suc (suc i)) xs
