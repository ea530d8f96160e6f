-- ===== src/Accounts/Versions.antt =====
-- Session versions in the rows of `users` (Chess-Backend/src/models/User.js): a row that is not behind a
-- version stays so, and a token with an earlier version is refused.
use end_to_end_kubernetes_ch.Base.{
  ℕ, suc, ◌<◌, ◌≡◌, refl, inl, inr, Bool, true, false, List, [], ◌∷◌, ◌++◌, arith, ◌&&◌, ltb,
  filter, any, Bool-cases,
}
use end_to_end_kubernetes_ch.Store.{update_where, count_where}
use end_to_end_kubernetes_ch.Accounts.{Account, is_account, next_version}
use end_to_end_kubernetes_ch.Accounts.Session.{is_fresh}

-- The user's row has an earlier session version.
abbrev pub is_behind : ℕ → ℕ → Account → Bool
is_behind id version a = is_account id a && ltb a.session_version version

pub not_behind-update :
    (id version : ℕ) (p : Account → Bool) (f : Account → Account) (xs : List Account)
    → ((a : Account) → is_behind id version a ≡ false → is_behind id version (f a) ≡ false)
    → any (is_behind id version) xs ≡ false
    → any (is_behind id version) (update_where p f xs) ≡ false
not_behind-update id version p f [] keep h = refl
not_behind-update id version p f (x ∷ xs) keep h =
    let hx : is_behind id version x ≡ false = ground (arith, h) in
    let rest : any (is_behind id version) xs ≡ false = ground (arith, h) in
    let tail = not_behind-update id version p f xs keep rest in
    elim (Bool-cases (p x)) [ inl k ↦ rw (k, keep x hx) tail | inr k ↦ rw (k, hx) tail ]

pub not_behind-append :
    (id version : ℕ) (xs : List Account) (a : Account)
    → is_behind id version a ≡ false
    → any (is_behind id version) xs ≡ false
    → any (is_behind id version) (xs ++ a ∷ []) ≡ false
not_behind-append id version [] a e h = rw e refl
not_behind-append id version (x ∷ xs) a e h = ground (arith, not_behind-append id version xs a e)

pub next_version-not_behind :
    (id version : ℕ) (xs : List Account)
    → any (is_behind id version) xs ≡ false
    → any (is_behind id (suc version)) (update_where (is_account id) next_version xs) ≡ false
next_version-not_behind id version [] h = refl
next_version-not_behind id version (x ∷ xs) h = elim (Bool-cases (is_account id x)) [
  | inl k ↦ rw k (ground (arith, k, h, next_version-not_behind id version xs))
  | inr k ↦ rw k (ground (arith, k, h, next_version-not_behind id version xs))
]

-- What one row for a user, with a version, says of the table.
pub none_there :
    (id version : ℕ) (xs : List Account)
    → filter (is_account id) xs ≡ []
    → (any (is_behind id version) xs ≡ false) × (count_where (is_account id) xs ≡ 0)
none_there id version [] h = (refl, refl)
none_there id version (x ∷ xs) h = elim (Bool-cases (is_account id x)) [
  | inl k ↦ absurd (cc (rw k at h))
  | inr k ↦ let (a, b) = none_there id version xs (rw k at h) in (rw k a, rw k (omega (arith, b)))
]

pub fresh_alone :
    (version : ℕ) (x : Account) (ys : List Account)
    → is_fresh version (x ∷ ys) ≡ true
    → (ys ≡ []) × (x.session_version ≡ version)
fresh_alone version x [] h = (refl, ground arith)
fresh_alone version x (y ∷ ys) h = cc

pub fresh_row :
    (id version : ℕ) (xs : List Account)
    → is_fresh version (filter (is_account id) xs) ≡ true
    → (any (is_behind id version) xs ≡ false) × (count_where (is_account id) xs ≡ 1)
fresh_row id version [] h = cc
fresh_row id version (x ∷ xs) h = elim (Bool-cases (is_account id x)) [
  | inl k ↦
      let (alone, same) = fresh_alone version x (filter (is_account id) xs) (rw k at h) in
      let (a, b) = none_there id version xs alone in
      (rw k (ground (arith, same, a)), rw k (omega (arith, b)))
  | inr k ↦ let (a, b) = fresh_row id version xs (rw k at h) in (rw k a, rw k (omega (arith, b)))
]

pub stale_row :
    (id version later : ℕ) (xs : List Account)
    → any (is_behind id later) xs ≡ false
    → version < later
    → is_fresh version (filter (is_account id) xs) ≡ false
stale_row id version later [] h lt = refl
stale_row id version later (x ∷ xs) h lt = elim (Bool-cases (is_account id x)) [
  | inl k ↦ elim (Bool-cases (is_fresh version (x ∷ filter (is_account id) xs))) [
    | inl f ↦
        let same = (fresh_alone version x (filter (is_account id) xs) f).1 in
        absurd (ground (arith, k, h, same, lt))
    | inr f ↦ rw k f
  ]
  | inr k ↦ rw k (stale_row id version later xs (ground (arith, k, h)) lt)
]
