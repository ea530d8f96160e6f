-- ===== src/Tokens/Revoked.antt =====
-- Revocation is for ever: no operation of Chess-Backend/src/models/AuthToken.js makes a revoked refresh
-- token good again.
use end_to_end_kubernetes_ch.Base.{
  ℕ, ◌≡◌, refl, ap, inl, inr, Bool, true, false, Option, none, some, List, [], ◌∷◌, ◌++◌, arith,
  ◌==◌, find, any, Ensures, Bool-cases, Option-cases,
}
use end_to_end_kubernetes_ch.Store.{update_where, count_where, is_some}
use end_to_end_kubernetes_ch.Tokens.{
  RefreshRow, Vault, has_hash, insert_refresh, revoke_family, in_family, revoke, is_unused, use_up,
  is_dead, replace_token, rotate_refresh_token, issue_refresh_token, is_active_of,
  revoke_all_for_user,
}

abbrev pub is_revoked_row : Option RefreshRow → Bool
is_revoked_row none = false
is_revoked_row (some r) = is_some r.revoked_at

-- The token with this hash is there, and revoked.
abbrev pub IsRevoked : ℕ → Vault → Type 0
IsRevoked hash db = is_revoked_row (find (has_hash hash) db.refresh) ≡ true

append-revoked :
    (hash : ℕ) (xs ys : List RefreshRow)
    → is_revoked_row (find (has_hash hash) xs) ≡ true
    → is_revoked_row (find (has_hash hash) (xs ++ ys)) ≡ true
append-revoked hash [] ys h = cc
append-revoked hash (x ∷ xs) ys h = elim (Bool-cases (has_hash hash x)) [
  | inl e ↦ rw e (rw e at h)
  | inr e ↦ rw e (append-revoked hash xs ys (rw e at h))
]

-- An update that keeps the hash and the revocation.
update-revoked :
    (hash : ℕ) (p : RefreshRow → Bool) (f : RefreshRow → RefreshRow) (xs : List RefreshRow)
    → ((r : RefreshRow) → has_hash hash (f r) ≡ has_hash hash r)
    → ((r : RefreshRow) → is_some r.revoked_at ≡ true → is_some (f r).revoked_at ≡ true)
    → is_revoked_row (find (has_hash hash) xs) ≡ true
    → is_revoked_row (find (has_hash hash) (update_where p f xs)) ≡ true
update-revoked hash p f [] same keep h = cc
update-revoked hash p f (x ∷ xs) same keep h = elim (Bool-cases (p x)) [
  | inl k ↦ elim (Bool-cases (has_hash hash x)) [
    | inl e ↦ rw (k, same x, e) (keep x (rw e at h))
    | inr e ↦ rw (k, same x, e) (update-revoked hash p f xs same keep (rw e at h))
  ]
  | inr k ↦ elim (Bool-cases (has_hash hash x)) [
    | inl e ↦ rw (k, e) (rw e at h)
    | inr e ↦ rw (k, e) (update-revoked hash p f xs same keep (rw e at h))
  ]
]

insert_refresh-IsRevoked :
    (hash owner family next now : ℕ) (db : Vault)
    → IsRevoked hash db
    → Ensures (IsRevoked hash) (insert_refresh owner family next now db)
unfolding insert_refresh
insert_refresh-IsRevoked hash owner family next now db h =
    elim (Bool-cases (any (has_hash next) db.refresh)) [
      | inl k ↦ rw (insert_refresh, k) tt
      | inr k ↦ rw (insert_refresh, k) (append-revoked hash db.refresh _ h)
    ]

pub issue_refresh_token-IsRevoked :
    (hash owner family next now : ℕ) (db : Vault)
    → IsRevoked hash db
    → Ensures (IsRevoked hash) (issue_refresh_token owner family next now db)
unfolding issue_refresh_token
issue_refresh_token-IsRevoked hash owner family next now db h =
    insert_refresh-IsRevoked hash owner family next now db h

pub revoke_all_for_user-IsRevoked :
    (hash owner now : ℕ) (db : Vault)
    → IsRevoked hash db
    → IsRevoked hash (revoke_all_for_user owner now db)
unfolding revoke_all_for_user
revoke_all_for_user-IsRevoked hash owner now db h =
    update-revoked hash (is_active_of owner) (revoke now) db.refresh (λ r. refl) (λ r e. refl) h

revoke_family-IsRevoked :
    (hash family now : ℕ) (db : Vault)
    → IsRevoked hash db
    → IsRevoked hash (revoke_family family now db)
unfolding revoke_family
revoke_family-IsRevoked hash family now db h =
    update-revoked hash (in_family family) (revoke now) db.refresh (λ r. refl) (λ r e. refl) h

replace_token-IsRevoked :
    (hash : ℕ) (old : RefreshRow) (next now : ℕ) (db : Vault)
    → IsRevoked hash db
    → Ensures (λ r. IsRevoked hash r.0) (replace_token old next now db)
unfolding replace_token
replace_token-IsRevoked hash old next now db h =
    elim (Bool-cases (count_where (is_unused old.id) db.refresh == 1)) [
      | inr k ↦ rw (replace_token, k) tt
      | inl k ↦
          let used : Vault = record db {
            refresh = update_where (is_unused old.id) (use_up now next) db.refresh;
          } in
          let kept : IsRevoked hash used =
            update-revoked hash (is_unused old.id) (use_up now next) db.refresh (λ r. refl)
              (λ r e. e) h in
          let made = insert_refresh-IsRevoked hash old.user_id old.family_id next now used kept in
          elim (Option-cases (insert_refresh old.user_id old.family_id next now used)) [
            | inl e ↦ rw (replace_token, k, e) tt
            | inr (v, e) ↦ elim (Bool-cases (count_where (λ u. u == old.user_id) db.users == 1)) [
              | inl l ↦ rw (replace_token, k, e, l) (rw e at made)
              | inr l ↦ rw (replace_token, k, e, l) tt
            ]
          ]
    ]

pub rotate_refresh_token-IsRevoked :
    (hash token next now : ℕ) (db : Vault)
    → IsRevoked hash db
    → Ensures (λ r. IsRevoked hash r.0) (rotate_refresh_token token next now db)
unfolding rotate_refresh_token
rotate_refresh_token-IsRevoked hash token next now db h =
    elim (Option-cases (find (has_hash token) db.refresh)) [
      | inl e ↦ rw (rotate_refresh_token, e) h
      | inr (old, e) ↦ elim (Bool-cases (is_dead now old)) [
        | inl k ↦ rw (rotate_refresh_token, e, k) h
        | inr k ↦ elim (Bool-cases (is_some old.consumed_at)) [
          | inl l ↦
              rw (rotate_refresh_token, e, k, l)
                (revoke_family-IsRevoked hash old.family_id now db h)
          | inr l ↦
              rw (rotate_refresh_token, e, k, l) (replace_token-IsRevoked hash old next now db h)
        ]
      ]
    ]

-- A revoked token is not rotated.
pub rotate_refresh_token-refused :
    (hash next now : ℕ) (db : Vault)
    → IsRevoked hash db
    → rotate_refresh_token hash next now db ≡ some (db, none)
unfolding rotate_refresh_token
rotate_refresh_token-refused hash next now db h =
    elim (Option-cases (find (has_hash hash) db.refresh)) [
      | inl e ↦ rw (rotate_refresh_token, e)
      | inr (old, e) ↦
          let dead : is_dead now old ≡ true = ground (arith, rw e at h) in
          simp (rotate_refresh_token, e, dead)
    ]

all_revoked :
    (hash owner now : ℕ) (r : RefreshRow) (xs : List RefreshRow)
    → r.user_id ≡ owner
    → find (has_hash hash) xs ≡ some r
    → is_revoked_row (find (has_hash hash) (update_where (is_active_of owner) (revoke now) xs))
      ≡ true
all_revoked hash owner now r [] u e = cc
all_revoked hash owner now r (x ∷ xs) u e = elim (Bool-cases (has_hash hash x)) [
  | inl k ↦ elim (Bool-cases (is_active_of owner x)) [
    | inl a ↦ rw (a, k) refl
    | inr a ↦
        let xr : x ≡ r = ap (λ o. elim o [ none ↦ x | some b ↦ b ]) (rw k at e) in
        rw (a, k) (ground (arith, a, ap (λ (y : RefreshRow). y.user_id) xr))
  ]
  | inr k ↦ elim (Bool-cases (is_active_of owner x)) [
    | inl a ↦ rw (a, k) (all_revoked hash owner now r xs u (rw k at e))
    | inr a ↦ rw (a, k) (all_revoked hash owner now r xs u (rw k at e))
  ]
]

-- Every token of the user is revoked by `revokeAllForUser`.
pub revoke_all_for_user-all :
    (hash owner now : ℕ) (db : Vault) (r : RefreshRow)
    → find (has_hash hash) db.refresh ≡ some r
    → r.user_id ≡ owner
    → IsRevoked hash (revoke_all_for_user owner now db)
unfolding revoke_all_for_user
revoke_all_for_user-all hash owner now db r e u = all_revoked hash owner now r db.refresh u e
