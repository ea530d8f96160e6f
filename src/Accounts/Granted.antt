-- ===== src/Accounts/Granted.antt =====
-- What a login grants (Chess-Backend/src/routes/auth.js, Chess-Backend/src/middleware/auth.js).
use Prim.Native.String.{String}
use end_to_end_kubernetes_ch.Base.{
  ℕ, ◌+◌, ◌≤◌, ◌<◌, ◌≡◌, ◌∙◌, refl, sym, ap, inl, inr, Bool, true, false, none, some, List, [], ◌∷◌,
  arith, ◌&&◌, find, filter, Has, Bool-cases, Option-cases,
}
use end_to_end_kubernetes_ch.Store.{count_where, is_some}
use end_to_end_kubernetes_ch.Tokens.{issue_refresh_token}
use end_to_end_kubernetes_ch.Accounts.{
  Account, Site, Claims, Outside, Moment, is_account, has_email, find_by_email,
}
use end_to_end_kubernetes_ch.Accounts.Session.{
  access, refresh, claims_of, active_session, authenticate,
}
use end_to_end_kubernetes_ch.Accounts.Handlers.{establish_session, login}

find-Has : (p : Account → Bool) (xs : List Account) {a : Account} → find p xs ≡ some a → Has a xs
find-Has p [] h = cc
find-Has p (x ∷ xs) h = elim (Bool-cases (p x)) [
  | inl e ↦ inl (sym (ap (λ o. elim o [ none ↦ x | some b ↦ b ]) (rw e at h)))
  | inr e ↦ inr (find-Has p xs (rw e at h))
]

none_counted : (p : Account → Bool) (xs : List Account) → count_where p xs ≡ 0 → filter p xs ≡ []
none_counted p [] h = refl
none_counted p (x ∷ xs) h = elim (Bool-cases (p x)) [
  | inl e ↦ absurd (omega (arith, rw e at h))
  | inr e ↦ rw e (none_counted p xs (omega (arith, rw e at h)))
]

none-Has :
    (p : Account → Bool) (xs : List Account) (a : Account)
    → count_where p xs ≡ 0
    → Has a xs
    → p a ≡ false
none-Has p [] a h m = elim m [ ]
none-Has p (x ∷ xs) a h (inl e) = elim (Bool-cases (p x)) [
  | inl k ↦ absurd (omega (arith, rw k at h))
  | inr k ↦ rw e k
]
none-Has p (x ∷ xs) a h (inr m) = none-Has p xs a (omega (arith, h)) m

-- The only row that passes a test.
sole_row :
    (p : Account → Bool) (xs : List Account) (a : Account)
    → count_where p xs ≤ 1
    → p a ≡ true
    → Has a xs
    → filter p xs ≡ a ∷ []
sole_row p [] a once e m = elim m [ ]
sole_row p (x ∷ xs) a once e m = elim (Bool-cases (p x)) [
  | inl k ↦
      let rest : count_where p xs ≡ 0 = omega (arith, rw k at once) in
      elim m [
        | inl q ↦ rw (k, none_counted p xs rest) (ap (λ y. y ∷ []) (sym q))
        | inr n ↦ absurd (cc (none-Has p xs a rest n, e))
      ]
  | inr k ↦ elim m [
    | inl q ↦ absurd (cc (ap p q, k, e))
    | inr n ↦ rw k (sole_row p xs a (omega (arith, rw k at once)) e n)
  ]
]

claims_of-active :
    (a : Account) (w : Site)
    → filter (is_account a.id) w.accounts ≡ a ∷ []
    → is_some a.email_verified_at ≡ true
    → active_session (claims_of a) w ≡ true
unfolding active_session claims_of
claims_of-active a w f v = rw f (ground (arith, v))

module _ (lib : Outside) (m : Moment) where
  established :
      (a : Account) (w : Site)
      → (establish_session lib m a w).1.status ≡ 200
      → ((establish_session lib m a w).0.accounts ≡ w.accounts)
        × ((establish_session lib m a w).1.cookies
            ≡ access m (lib.jwt_sign (claims_of a) m.now) ∷ refresh m m.raw ∷ [])
  unfolding establish_session
  established a w h =
      elim (Option-cases (issue_refresh_token a.id m.family (lib.sha256 m.raw) m.now w.vault)) [
        | inl e ↦ absurd (omega (arith, rw (establish_session, e) at h))
        | inr (v, e) ↦ rw (establish_session, e) (refl, refl)
      ]

  granted :
      (email password : String) (w : Site)
      → (login lib m email password w).1.status ≡ 200
      → (a : Account) × (find_by_email (lib.normalize_email email) w ≡ some a)
        × (lib.bcrypt_compare password a.password_hash && is_some a.email_verified_at ≡ true)
        × (login lib m email password w ≡ establish_session lib m a w)
  unfolding login
  granted email password w h = elim (Bool-cases (lib.is_email email)) [
    | inr e ↦ absurd (omega (arith, rw (login, e) at h))
    | inl e ↦ elim (Option-cases (find_by_email (lib.normalize_email email) w)) [
      | inl k ↦ absurd (omega (arith, rw (login, e, k) at h))
      | inr (a, k) ↦
          elim (Bool-cases
            (lib.bcrypt_compare password a.password_hash && is_some a.email_verified_at)) [
              | inl l ↦ (a, k, l, rw (login, e, k, l) refl)
              | inr l ↦ absurd (omega (arith, rw (login, e, k, l) at h))
            ]
    ]
  ]

  accepted :
      (token : String) (c : Claims) (w : Site)
      → lib.jwt_verify token m.now ≡ some c
      → active_session c w ≡ true
      → authenticate lib m (some token) w ≡ some c
  unfolding authenticate
  accepted token c w e k = simp (authenticate, e, k)

-- A login that is answered 200 was made with the address and the password of a user whose address
-- is verified. Its cookies are an access token of the user and a refresh token, and until another
-- request is served, and before the access token expires, authMiddleware takes it for the user's.
-- Ids are unique in the table, and an access token of its users is verified for 15 minutes.
pub login-authenticate :
    (lib : Outside) (m later : Moment) (email password : String) (w : Site)
    → ((id : ℕ) → count_where (is_account id) w.accounts ≤ 1)
    → ((b : Account) (now at_time : ℕ)
        → Has b w.accounts
        → at_time < now + 900000
        → lib.jwt_verify (lib.jwt_sign (claims_of b) now) at_time ≡ some (claims_of b))
    → later.now < m.now + 900000
    → (login lib m email password w).1.status ≡ 200
    → (a : Account) × (find_by_email (lib.normalize_email email) w ≡ some a)
      × (lib.bcrypt_compare password a.password_hash ≡ true)
      × (is_some a.email_verified_at ≡ true)
      × ((login lib m email password w).1.cookies
          ≡ access m (lib.jwt_sign (claims_of a) m.now) ∷ refresh m m.raw ∷ [])
      × (authenticate lib later
            (some (lib.jwt_sign (claims_of a) m.now))
            (login lib m email password w).0
          ≡ some (claims_of a))
unfolding find_by_email
login-authenticate lib m later email password w unique verifies early h =
    let (a, found, right, same) = granted lib m email password w h in
    let (rows, cookies) = established lib m a w (sym (ap (λ r. r.1.status) same) ∙ h) in
    let alone : filter (is_account a.id) w.accounts ≡ a ∷ [] =
      sole_row (is_account a.id) w.accounts a (unique a.id) (ground arith)
        (find-Has (has_email (lib.normalize_email email)) w.accounts found) in
    let verified : is_some a.email_verified_at ≡ true = ground (arith, right) in
    let kept : (login lib m email password w).0.accounts ≡ w.accounts =
      ap (λ r. r.0.accounts) same ∙ rows in
    (
      a,
      found,
      ground (arith, right),
      verified,
      ap (λ r. r.1.cookies) same ∙ cookies,
      accepted lib later (lib.jwt_sign (claims_of a) m.now) (claims_of a)
          (login lib m email password w).0
          (verifies a m.now later.now
            (find-Has (has_email (lib.normalize_email email)) w.accounts found) early)
          (claims_of-active a (login lib m email password w).0
            (ap (filter (is_account a.id)) kept ∙ alone) verified),
    )
