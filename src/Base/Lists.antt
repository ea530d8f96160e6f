-- ===== src/Base/Lists.antt =====
-- Lists measured and indexed by the native numbers, with Boolean search and filter, and two
-- predicates by recursion (`All`, `Some`).
use Prim.Native.Nat.{ℕ, zero, suc, ◌+◌, ◌<◌}
use mathlib.Core.Path.{◌≡◌, refl, ap, subst}
use mathlib.Core.Logic.{◌≢◌, ◌⊎◌, inl, inr}
use mathlib.Core.Bool.{Bool, true, false, ◌||◌, ◌&&◌}
use mathlib.Core.Option.{Option, none, some}
use mathlib.Core.List.{List, [], ◌∷◌, ◌++◌}
use native.Mathlib.Omega.{arith}
use end_to_end_kubernetes_ch.Base.Tests.{if◌then◌else◌, Bool-cases}

module _ {ℓ} {A : Type ℓ} where
  abbrev pub length : List A → ℕ
  length [] = 0
  length (x ∷ xs) = suc (length xs)

  abbrev pub get_elem? : List A → ℕ → Option A
  get_elem? [] i = none
  get_elem? (x ∷ xs) zero = some x
  get_elem? (x ∷ xs) (suc i) = get_elem? xs i

  abbrev pub set : List A → ℕ → A → List A
  set [] i v = []
  set (x ∷ xs) zero v = v ∷ xs
  set (x ∷ xs) (suc i) v = x ∷ set xs i v

  abbrev pub replicate : ℕ → A → List A
  replicate zero a = []
  replicate (suc n) a = a ∷ replicate n a

  -- `xs.some(p)`
  abbrev pub any : (A → Bool) → List A → Bool
  any p [] = false
  any p (x ∷ xs) = p x || any p xs

  -- `xs.every(p)`
  abbrev pub all : (A → Bool) → List A → Bool
  all p [] = true
  all p (x ∷ xs) = p x && all p xs

  -- `xs.find(p)`
  abbrev pub find : (A → Bool) → List A → Option A
  find p [] = none
  find p (x ∷ xs) = if p x then some x else find p xs

  -- `xs.filter(p)`
  abbrev pub filter : (A → Bool) → List A → List A
  filter p [] = []
  filter p (x ∷ xs) = if p x then x ∷ filter p xs else filter p xs

  -- `xs.at(-1)`
  abbrev pub get_last? : List A → Option A
  get_last? [] = none
  get_last? (x ∷ []) = some x
  get_last? (x ∷ y ∷ xs) = get_last? (y ∷ xs)

  abbrev pub All {κ} : (A → Type κ) → List A → Type κ
  All P [] = Unit
  All P (x ∷ xs) = P x × All P xs

module _ {ℓ} {A : Type ℓ} where
  pub length-append : (xs ys : List A) → length (xs ++ ys) ≡ length xs + length ys
  length-append [] ys = omega arith
  length-append (x ∷ xs) ys = omega (arith, length-append xs ys)

  pub length-set : (xs : List A) (i : ℕ) (v : A) → length (set xs i v) ≡ length xs
  length-set [] i v = refl
  length-set (x ∷ xs) zero v = refl
  length-set (x ∷ xs) (suc i) v = ap suc (length-set xs i v)

  pub get_elem?-set_self :
      (xs : List A) (i : ℕ) (v : A) → i < length xs → get_elem? (set xs i v) i ≡ some v
  get_elem?-set_self [] i v h = elim h [ ]
  get_elem?-set_self (x ∷ xs) zero v h = refl
  get_elem?-set_self (x ∷ xs) (suc i) v h = get_elem?-set_self xs i v (omega arith)

  pub get_elem?-set_ne :
      (xs : List A) (i j : ℕ) (v : A) → i ≢ j → get_elem? (set xs i v) j ≡ get_elem? xs j
  get_elem?-set_ne [] i j v h = refl
  get_elem?-set_ne (x ∷ xs) zero zero v h = absurd (h refl)
  get_elem?-set_ne (x ∷ xs) zero (suc j) v h = refl
  get_elem?-set_ne (x ∷ xs) (suc i) zero v h = refl
  get_elem?-set_ne (x ∷ xs) (suc i) (suc j) v h = get_elem?-set_ne xs i j v (λ e. h (ap suc e))

  pub get_elem?_total : (xs : List A) (i : ℕ) → i < length xs → (a : A) × (get_elem? xs i ≡ some a)
  get_elem?_total [] i h = elim h [ ]
  get_elem?_total (x ∷ xs) zero h = (x, refl)
  get_elem?_total (x ∷ xs) (suc i) h = get_elem?_total xs i (omega arith)

module _ {ℓ κ} {A : Type ℓ} (P : A → Type κ) where
  pub All-append : (xs ys : List A) → All P xs → All P ys → All P (xs ++ ys)
  All-append [] ys hx hy = hy
  All-append (x ∷ xs) ys hx hy = (hx.0, All-append xs ys hx.1 hy)

  pub All-filter : (p : A → Bool) (xs : List A) → All P xs → All P (filter p xs)
  All-filter p [] h = tt
  All-filter p (x ∷ xs) h = elim (Bool-cases (p x)) [
    | inl e ↦ rw e (h.0, All-filter p xs h.1)
    | inr e ↦ rw e (All-filter p xs h.1)
  ]

  pub All-set : (xs : List A) (i : ℕ) (v : A) → All P xs → P v → All P (set xs i v)
  All-set [] i v h hv = tt
  All-set (x ∷ xs) zero v h hv = (hv, h.1)
  All-set (x ∷ xs) (suc i) v h hv = (h.0, All-set xs i v h.1 hv)

  pub All-get_elem? : (xs : List A) (i : ℕ) {a : A} → All P xs → get_elem? xs i ≡ some a → P a
  All-get_elem? [] i h e = cc
  All-get_elem? (x ∷ xs) zero h e = subst (λ o. elim o [ none ↦ P x | some b ↦ P b ]) e h.0
  All-get_elem? (x ∷ xs) (suc i) h e = All-get_elem? xs i h.1 e

  -- The elements that pass a test, with the test's outcome.
  pub All-filter_self :
      (p : A → Bool) → ((a : A) → p a ≡ true → P a) → (xs : List A) → All P (filter p xs)
  All-filter_self p f [] = tt
  All-filter_self p f (x ∷ xs) = elim (Bool-cases (p x)) [
    | inl e ↦ rw e (f x e, All-filter_self p f xs)
    | inr e ↦ rw e (All-filter_self p f xs)
  ]

-- `x` occurs in the list.
abbrev pub Has : {A : Type 0} → A → List A → Type 0
Has x [] = ⊥
Has x (y ∷ ys) = (x ≡ y) ⊎ Has x ys

module _ {A : Type 0} where
  pub Has-append_left : (x : A) (xs ys : List A) → Has x xs → Has x (xs ++ ys)
  Has-append_left x [] ys h = elim h [ ]
  Has-append_left x (y ∷ xs) ys (inl e) = inl e
  Has-append_left x (y ∷ xs) ys (inr h) = inr (Has-append_left x xs ys h)

  pub Has-append_right : (x : A) (xs ys : List A) → Has x ys → Has x (xs ++ ys)
  Has-append_right x [] ys h = h
  Has-append_right x (y ∷ xs) ys h = inr (Has-append_right x xs ys h)

  pub Has-append : (x : A) (xs ys : List A) → Has x (xs ++ ys) → Has x xs ⊎ Has x ys
  Has-append x [] ys h = inr h
  Has-append x (y ∷ xs) ys (inl e) = inl (inl e)
  Has-append x (y ∷ xs) ys (inr h) = elim (Has-append x xs ys h) [
    | inl l ↦ inl (inr l)
    | inr r ↦ inr r
  ]

  -- `any` finds a witness, and any witness makes it true.
  pub any-Has : (p : A → Bool) (xs : List A) → any p xs ≡ true → (x : A) × Has x xs × (p x ≡ true)
  any-Has p [] h = cc
  any-Has p (x ∷ xs) h = elim (Bool-cases (p x)) [
    | inl e ↦ (x, inl refl, e)
    | inr e ↦ let (y, hy, py) = any-Has p xs (ground arith) in (y, inr hy, py)
  ]

  pub any_of_Has : (p : A → Bool) (x : A) (xs : List A) → Has x xs → p x ≡ true → any p xs ≡ true
  any_of_Has p x [] m h = elim m [ ]
  any_of_Has p x (y ∷ xs) (inl e) h = rw (← e, h)
  any_of_Has p x (y ∷ xs) (inr m) h = elim (Bool-cases (p y)) [
    | inl e ↦ rw e
    | inr e ↦ rw e (any_of_Has p x xs m h)
  ]

  pub filter-Has :
      (p : A → Bool) (x : A) (xs : List A) → Has x (filter p xs) → Has x xs × (p x ≡ true)
  filter-Has p x [] h = elim h [ ]
  filter-Has p x (y ∷ xs) h = elim (Bool-cases (p y)) [
    | inl e ↦ keep e (filter-Has p x xs) (rw e at h)
    | inr e ↦ let (m, q) = filter-Has p x xs (rw e at h) in (inr m, q)
  ]
    where
      keep :
          p y ≡ true
          → (Has x (filter p xs) → Has x xs × (p x ≡ true))
          → (x ≡ y) ⊎ Has x (filter p xs)
          → Has x (y ∷ xs) × (p x ≡ true)
      keep e f (inl q) = (inl q, rw q e)
      keep e f (inr m) = (inr (f m).0, (f m).1)

  pub Has-filter :
      (p : A → Bool) (x : A) (xs : List A) → Has x xs → p x ≡ true → Has x (filter p xs)
  Has-filter p x [] m h = m
  Has-filter p x (y ∷ xs) (inl e) h = rw (← e, h) (inl refl)
  Has-filter p x (y ∷ xs) (inr m) h = elim (Bool-cases (p y)) [
    | inl e ↦ rw e (inr (Has-filter p x xs m h))
    | inr e ↦ rw e (Has-filter p x xs m h)
  ]

  pub All-Has {κ} : (P : A → Type κ) (x : A) (xs : List A) → All P xs → Has x xs → P x
  All-Has P x [] h m = elim m [ ]
  All-Has P x (y ∷ xs) h (inl e) = rw e h.0
  All-Has P x (y ∷ xs) h (inr m) = All-Has P x xs h.1 m
