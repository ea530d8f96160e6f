-- ===== src/Tokens/Rotation.antt =====
-- Refresh tokens: a token is rotated once, and the use of a rotated one ends its family
-- (`rotateRefreshToken` of Chess-Backend/src/models/AuthToken.js).
use end_to_end_kubernetes_ch.Base.{
  ℕ, ◌<◌, ◌≡◌, ◌∙◌, refl, sym, ap, inl, inr, Bool, true, false, none, some, List, [], ◌∷◌, ◌++◌,
  arith, ◌==◌, find, any, Bool-cases,
}
use end_to_end_kubernetes_ch.Store.{update_where, count_where, is_some}
use end_to_end_kubernetes_ch.Store.Settled.{some_pair-inj}
use end_to_end_kubernetes_ch.Tokens.{
  RefreshRow, Vault, has_hash, insert_refresh, revoke_family, in_family, revoke, is_unused, use_up,
  is_dead, replace_token, rotate_refresh_token,
}

find-update_where :
    (p q : RefreshRow → Bool) (f : RefreshRow → RefreshRow) (xs : List RefreshRow) {a : RefreshRow}
    → ((r : RefreshRow) → p (f r) ≡ p r)
    → find p xs ≡ some a
    → q a ≡ true
    → find p (update_where q f xs) ≡ some (f a)
find-update_where p q f [] same h k = cc
find-update_where p q f (x ∷ xs) {a} same h k = elim (Bool-cases (p x)) [
  | inl e ↦
      let xa : x ≡ a = ap (λ o. elim o [ none ↦ x | some b ↦ b ]) (rw e at h) in
      let qx : q x ≡ true = ap q xa ∙ k in rw (qx, same x, e) (ap (λ r. some (f r)) xa)
  | inr e ↦ elim (Bool-cases (q x)) [
    | inl l ↦ rw (l, same x, e) (find-update_where p q f xs same (rw e at h) k)
    | inr l ↦ rw (l, e) (find-update_where p q f xs same (rw e at h) k)
  ]
]

find-append :
    (p : RefreshRow → Bool) (xs ys : List RefreshRow) {a : RefreshRow}
    → find p xs ≡ some a
    → find p (xs ++ ys) ≡ some a
find-append p [] ys h = cc
find-append p (x ∷ xs) ys h = elim (Bool-cases (p x)) [
  | inl e ↦ rw e (rw e at h)
  | inr e ↦ rw e (find-append p xs ys (rw e at h))
]

-- The rows of a revoked family are revoked.
find-revoked :
    (p : RefreshRow → Bool) (family now : ℕ) (xs : List RefreshRow) {a : RefreshRow}
    → find p (update_where (in_family family) (revoke now) xs) ≡ some a
    → a.family_id ≡ family
    → is_some a.revoked_at ≡ true
find-revoked p family now [] h e = cc
find-revoked p family now (x ∷ xs) {a} h e = elim (Bool-cases (in_family family x)) [
  | inl k ↦ elim (Bool-cases (p (revoke now x))) [
    | inl l ↦
        let xa : revoke now x ≡ a =
          ap (λ o. elim o [ none ↦ revoke now x | some b ↦ b ]) (rw (k, l) at h) in
        sym (ap (λ (r : RefreshRow). is_some r.revoked_at) xa) ∙ refl
    | inr l ↦ find-revoked p family now xs (rw (k, l) at h) e
  ]
  | inr k ↦ elim (Bool-cases (p x)) [
    | inl l ↦
        let xa : x ≡ a = ap (λ o. elim o [ none ↦ x | some b ↦ b ]) (rw (k, l) at h) in
        ground
          (arith, ap (λ (r : RefreshRow). r.family_id) xa, ap (λ (r : RefreshRow). r.revoked_at) xa)
    | inr l ↦ find-revoked p family now xs (rw (k, l) at h) e
  ]
]

module _ (hash next now : ℕ) (db : Vault) (old : RefreshRow)
    (e : find (has_hash hash) db.refresh ≡ some old) where
  rotate-dead : is_dead now old ≡ true → rotate_refresh_token hash next now db ≡ some (db, none)
  unfolding rotate_refresh_token
  rotate-dead d = simp (rotate_refresh_token, e, d)

  rotate-reused :
      is_dead now old ≡ false
      → is_some old.consumed_at ≡ true
      → rotate_refresh_token hash next now db ≡ some (revoke_family old.family_id now db, none)
  unfolding rotate_refresh_token
  rotate-reused d c = simp (rotate_refresh_token, e, d, c)

  rotate-replaced :
      is_dead now old ≡ false
      → is_some old.consumed_at ≡ false
      → rotate_refresh_token hash next now db ≡ replace_token old next now db
  unfolding rotate_refresh_token
  rotate-replaced d c = simp (rotate_refresh_token, e, d, c)

-- The rows after a rotation that was made.
replace_token-refresh :
    (old : RefreshRow) (next now : ℕ) (db db' : Vault) (user : ℕ)
    → replace_token old next now db ≡ some (db', some user)
    → (fresh : RefreshRow) × (db'.refresh
        ≡ update_where (is_unused old.id) (use_up now next) db.refresh ++ fresh ∷ [])
unfolding replace_token insert_refresh
replace_token-refresh old next now db db' user h =
    elim (Bool-cases (count_where (is_unused old.id) db.refresh == 1)) [
      | inr e ↦ absurd (cc (rw (replace_token, e) at h))
      | inl e ↦
          elim (Bool-cases
            (any (has_hash next) (update_where (is_unused old.id) (use_up now next) db.refresh))) [
              | inl f ↦ absurd (cc (rw (replace_token, e, insert_refresh, f) at h))
              | inr f ↦ elim (Bool-cases (count_where (λ u. u == old.user_id) db.users == 1)) [
                | inr k ↦ absurd (cc (rw (replace_token, e, insert_refresh, f, k) at h))
                | inl k ↦ (
                  _,
                  ap (λ (v : Vault). v.refresh)
                      (some_pair-inj (rw (replace_token, e, insert_refresh, f, k) at h)).0,
                )
              ]
            ]
    ]

-- A rotation that was made found a live, unused token and has marked it as used.
rotate-made :
    (hash next now : ℕ) (db db' : Vault) (user : ℕ) (old : RefreshRow)
    → find (has_hash hash) db.refresh ≡ some old
    → rotate_refresh_token hash next now db ≡ some (db', some user)
    → (is_dead now old ≡ false) × (find (has_hash hash) db'.refresh ≡ some (use_up now next old))
rotate-made hash next now db db' user old e h = elim (Bool-cases (is_dead now old)) [
  | inl d ↦ absurd (cc (rotate-dead hash next now db old e d, h))
  | inr d ↦ elim (Bool-cases (is_some old.consumed_at)) [
    | inl c ↦ absurd (cc (rotate-reused hash next now db old e d c, h))
    | inr c ↦
        let (fresh, rows) =
          replace_token-refresh old next now db db' user
            (sym (rotate-replaced hash next now db old e d c) ∙ h) in
        (
          d,
          ap (find (has_hash hash)) rows
              ∙ find-append (has_hash hash)
                  (update_where (is_unused old.id) (use_up now next) db.refresh) (fresh ∷ [])
                  (find-update_where (has_hash hash) (is_unused old.id) (use_up now next) db.refresh
                    (λ r. refl) e (ground (arith, c))),
        )
  ]
]

-- A token that was rotated gives no second one. Its use before its expiry revokes its whole family:
-- from then on no token of the family, the newest included, is rotated.
pub rotate_refresh_token-reuse :
    (hash next now hash' next' now' other now'' : ℕ) (db db' : Vault) (user : ℕ)
    (old row : RefreshRow)
    → find (has_hash hash) db.refresh ≡ some old
    → rotate_refresh_token hash next now db ≡ some (db', some user)
    → now' < old.expires_at
    → find (has_hash other) (revoke_family old.family_id now' db').refresh ≡ some row
    → row.family_id ≡ old.family_id
    → (rotate_refresh_token hash next' now' db' ≡ some (revoke_family old.family_id now' db', none))
      × (rotate_refresh_token other hash' now'' (revoke_family old.family_id now' db')
          ≡ some (revoke_family old.family_id now' db', none))
unfolding revoke_family
rotate_refresh_token-reuse hash next now hash' next' now' other now'' db db' user old row e h early
      f same =
    let (alive, used) = rotate-made hash next now db db' user old e h in
    (
      rotate-reused hash next' now' db' (use_up now next old) used (ground (arith, alive)) refl,
      rotate-dead other hash' now'' (revoke_family old.family_id now' db') row f
          (ground (arith, find-revoked (has_hash other) old.family_id now' db'.refresh f same)),
    )
