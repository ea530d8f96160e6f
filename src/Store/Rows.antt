-- ===== src/Store/Rows.antt =====
-- Updates of a table against the queries that read it afterwards (Chess-Backend/src/models/Game.js).
use end_to_end_kubernetes_ch.Base.{
  ◌≡◌, ◌∙◌, refl, sym, ap, inl, inr, Bool, true, false, none, some, List, [], ◌∷◌, arith,
  if◌then◌else◌, Bool-cases, filter, ◌&&◌,
}
use end_to_end_kubernetes_ch.Store.{update_where, count_where, one_row}

module _ {A : Type 0} (p q : A → Bool) (f : A → A) (same : (a : A) → p (f a) ≡ p a) where
  -- An update that keeps the columns a `WHERE` reads commutes with it.
  pub filter-update_where :
      (xs : List A) → filter p (update_where q f xs) ≡ update_where q f (filter p xs)
  filter-update_where [] = refl
  filter-update_where (x ∷ xs) = elim (Bool-cases (q x)) [
    | inl e ↦ elim (Bool-cases (p x)) [
      | inl h ↦ rw (e, same x, h, e) (ap (λ t. f x ∷ t) (filter-update_where xs))
      | inr h ↦ rw (e, same x, h) (filter-update_where xs)
    ]
    | inr e ↦ elim (Bool-cases (p x)) [
      | inl h ↦ rw (e, h, e) (ap (λ t. x ∷ t) (filter-update_where xs))
      | inr h ↦ rw (e, h) (filter-update_where xs)
    ]
  ]

one_row-update_where :
    {A : Type 0} (q : A → Bool) (f : A → A) (xs : List A) {a : A}
    → one_row xs ≡ some a
    → one_row (update_where q f xs) ≡ some (if q a then f a else a)
one_row-update_where q f [] h = cc
one_row-update_where q f (x ∷ []) h =
    ap (λ o. elim o [ none ↦ none | some b ↦ some (if q b then f b else b) ]) h
one_row-update_where q f (x ∷ y ∷ xs) h = cc

-- The row that a query by id reads after an update of that row.
pub one_row-filter-update_where :
    {A : Type 0} (p q : A → Bool) (f : A → A) (xs : List A) {a : A}
    → ((b : A) → p (f b) ≡ p b)
    → one_row (filter p xs) ≡ some a
    → q a ≡ true
    → one_row (filter p (update_where q f xs)) ≡ some (f a)
one_row-filter-update_where p q f xs {a} same h e =
    ap one_row (filter-update_where p q f same xs)
    ∙ one_row-update_where q f (filter p xs) h
    ∙ rw e refl

-- The row that a query by id reads after an update of another row.
pub one_row-filter-untouched :
    {A : Type 0} (p q : A → Bool) (f : A → A) (xs : List A) {a : A}
    → ((b : A) → p (f b) ≡ p b)
    → one_row (filter p xs) ≡ some a
    → q a ≡ false
    → one_row (filter p (update_where q f xs)) ≡ some a
one_row-filter-untouched p q f xs {a} same h e =
    ap one_row (filter-update_where p q f same xs)
    ∙ one_row-update_where q f (filter p xs) h
    ∙ rw e refl

one_row-cons :
    {A : Type 0} (x : A) (xs : List A) {a : A} → one_row (x ∷ xs) ≡ some a → (x ≡ a) × (xs ≡ [])
one_row-cons x [] h = (ap (λ o. elim o [ none ↦ x | some b ↦ b ]) h, refl)
one_row-cons x (y ∷ xs) h = cc

-- The one row that passes a test passes it.
pub one_row-filter :
    {A : Type 0} (p : A → Bool) (xs : List A) {a : A} → one_row (filter p xs) ≡ some a → p a ≡ true
one_row-filter p [] h = cc
one_row-filter p (x ∷ xs) h = elim (Bool-cases (p x)) [
  | inl e ↦ ap p (sym (one_row-cons x (filter p xs) (rw e at h)).0) ∙ e
  | inr e ↦ one_row-filter p xs (rw e at h)
]

count_where-none :
    {A : Type 0} (p r : A → Bool) (xs : List A)
    → filter p xs ≡ []
    → count_where (λ x. p x && r x) xs ≡ 0
count_where-none p r [] h = refl
count_where-none p r (x ∷ xs) h = elim (Bool-cases (p x)) [
  | inl e ↦ absurd (cc (rw e at h))
  | inr e ↦ rw e (omega (arith, count_where-none p r xs (rw e at h)))
]

-- A test that narrows the one that a single row passes is met by that row or by none.
pub count_where-one_row :
    {A : Type 0} (p r : A → Bool) (xs : List A) {a : A}
    → one_row (filter p xs) ≡ some a
    → r a ≡ true
    → count_where (λ x. p x && r x) xs ≡ 1
count_where-one_row p r [] h k = cc
count_where-one_row p r (x ∷ xs) {a} h k = elim (Bool-cases (p x)) [
  | inl e ↦
      let (xa, rest) = one_row-cons x (filter p xs) (rw e at h) in
      let rx : r x ≡ true = ap r xa ∙ k in rw (e, rx) (omega (arith, count_where-none p r xs rest))
  | inr e ↦ rw e (omega (arith, count_where-one_row p r xs (rw e at h) k))
]

module _ {A : Type 0} (p q : A → Bool) (imp : (x : A) → p x ≡ false → q x ≡ false) where
  pub filter-narrow_none : (xs : List A) → filter p xs ≡ [] → filter q xs ≡ []
  filter-narrow_none [] h = refl
  filter-narrow_none (x ∷ xs) h = elim (Bool-cases (p x)) [
    | inl e ↦ absurd (cc (rw e at h))
    | inr e ↦ rw (imp x e) (filter-narrow_none xs (rw e at h))
  ]

  -- A query that narrows one with a single answer has that answer, if it passes.
  pub one_row-narrow :
      (xs : List A) {a : A}
      → one_row (filter p xs) ≡ some a
      → q a ≡ true
      → one_row (filter q xs) ≡ some a
  one_row-narrow [] h k = cc
  one_row-narrow (x ∷ xs) {a} h k = elim (Bool-cases (p x)) [
    | inl e ↦
        let (xa, rest) = one_row-cons x (filter p xs) (rw e at h) in
        let qx : q x ≡ true = ap q xa ∙ k in rw (qx, filter-narrow_none xs rest) (ap some xa)
    | inr e ↦ rw (imp x e) (one_row-narrow xs (rw e at h) k)
  ]
