-- ===== src/Tokens.antt =====
-- Chess-Backend/src/models/AuthToken.js: account tokens that are used once, and refresh tokens that
-- are rotated. Only hashes are stored; `hashToken` and `randomToken` are arguments, as the hash of
-- the token at hand. A time is in ms; an unset column is `none`. `token_hash` is UNIQUE.
pub mod Rotation
pub mod Consumption
pub mod Revoked
pub mod Tests
use end_to_end_kubernetes_ch.Base.{
  ℕ, suc, ◌+◌, Bool, true, false, not, Option, none, some, List, [], ◌∷◌, ◌++◌, ◌&&◌, ◌||◌, ◌==◌,
  leb, ltb, if◌then◌else◌, find, filter, any,
}
use end_to_end_kubernetes_ch.Store.{update_where, count_where, is_some}

-- A row of `refresh_tokens`.
pub record RefreshRow : Type 0 where
  pub id : ℕ
  pub user_id : ℕ
  pub family_id : ℕ
  pub token_hash : ℕ
  pub expires_at : ℕ
  pub revoked_at : Option ℕ
  pub consumed_at : Option ℕ
  pub replaced_by : Option ℕ

-- A row of `account_tokens`.
pub record AccountRow : Type 0 where
  pub id : ℕ
  pub user_id : ℕ
  pub purpose : ℕ
  pub token_hash : ℕ
  pub expires_at : ℕ
  pub consumed_at : Option ℕ

-- Both tables, the ids of `users`, and the next serial.
pub record Vault : Type 0 where
  pub refresh : List RefreshRow
  pub account : List AccountRow
  pub users : List ℕ
  pub next_id : ℕ

-- `REFRESH_MAX_AGE_MS`, 30 days
abbrev pub refresh_max_age : ℕ
refresh_max_age = 2592000000

abbrev pub has_hash : ℕ → RefreshRow → Bool
has_hash hash r = r.token_hash == hash

-- The insert of a refresh token, which throws for a hash that is there already.
unfoldable pub insert_refresh : ℕ → ℕ → ℕ → ℕ → Vault → Option Vault
insert_refresh user family hash now db =
    if any (has_hash hash) db.refresh
    then none
    else some (record db {
      refresh =
          db.refresh
          ++ record {
            id = db.next_id;
            user_id = user;
            family_id = family;
            token_hash = hash;
            expires_at = now + refresh_max_age;
            revoked_at = none;
            consumed_at = none;
            replaced_by = none;
          }
            ∷ [];
      next_id = suc db.next_id;
    })

-- `issueRefreshToken`; a new login has a new family.
unfoldable pub issue_refresh_token : ℕ → ℕ → ℕ → ℕ → Vault → Option Vault
issue_refresh_token user family hash now db = insert_refresh user family hash now db

-- `WHERE family_id=$1 AND revoked_at IS NULL`
abbrev pub in_family : ℕ → RefreshRow → Bool
in_family family r = r.family_id == family && not (is_some r.revoked_at)

abbrev pub revoke : ℕ → RefreshRow → RefreshRow
revoke now r = record r { revoked_at = some now }

unfoldable pub revoke_family : ℕ → ℕ → Vault → Vault
revoke_family family now db = record db {
  refresh = update_where (in_family family) (revoke now) db.refresh;
}

-- `WHERE id=$1 AND consumed_at IS NULL`
abbrev pub is_unused : ℕ → RefreshRow → Bool
is_unused id r = r.id == id && not (is_some r.consumed_at)

abbrev pub use_up : ℕ → ℕ → RefreshRow → RefreshRow
use_up now next r = record r { consumed_at = some now; replaced_by = some next }

-- `!old || old.expires_at <= new Date() || old.revoked_at`, for a row
abbrev pub is_dead : ℕ → RefreshRow → Bool
is_dead now r = leb r.expires_at now || is_some r.revoked_at

-- From `const used = …` on; `none` is an exception.
unfoldable pub replace_token : RefreshRow → ℕ → ℕ → Vault → Option (Vault × Option ℕ)
replace_token old next now db =
    if not (count_where (is_unused old.id) db.refresh == 1)
    then none
    else elim (insert_refresh old.user_id old.family_id next now
        (record db { refresh = update_where (is_unused old.id) (use_up now next) db.refresh })) [
          | none ↦ none
          | some made ↦
              if count_where (λ u. u == old.user_id) db.users == 1
              then some (made, some old.user_id)
              else none
        ]

-- `rotateRefreshToken`: the user whose new token is `next`, or `null`.
unfoldable pub rotate_refresh_token : ℕ → ℕ → ℕ → Vault → Option (Vault × Option ℕ)
rotate_refresh_token hash next now db = elim (find (has_hash hash) db.refresh) [
  | none ↦ some (db, none)
  | some old ↦
      if is_dead now old
      then some (db, none)
      else if is_some old.consumed_at
      then some (revoke_family old.family_id now db, none)
      else replace_token old next now db
]

-- `revokeRefreshToken`
abbrev pub is_active_hash : ℕ → RefreshRow → Bool
is_active_hash hash r = has_hash hash r && not (is_some r.revoked_at)

unfoldable pub revoke_refresh_token : ℕ → ℕ → Vault → Vault × Bool
revoke_refresh_token hash now db = (
  record db { refresh = update_where (is_active_hash hash) (revoke now) db.refresh },
  count_where (is_active_hash hash) db.refresh == 1,
)

-- `revokeAllForUser`
abbrev pub is_active_of : ℕ → RefreshRow → Bool
is_active_of user r = r.user_id == user && not (is_some r.revoked_at)

unfoldable pub revoke_all_for_user : ℕ → ℕ → Vault → Vault
revoke_all_for_user user now db = record db {
  refresh = update_where (is_active_of user) (revoke now) db.refresh;
}

-- `WHERE token_hash=$1 AND purpose=$2 AND consumed_at IS NULL AND expires_at > CURRENT_TIMESTAMP`
abbrev pub is_usable : ℕ → ℕ → ℕ → AccountRow → Bool
is_usable hash purpose now a =
    a.token_hash == hash
    && a.purpose == purpose
    && not (is_some a.consumed_at)
    && ltb now a.expires_at

abbrev pub is_unspent : ℕ → AccountRow → Bool
is_unspent id a = a.id == id && not (is_some a.consumed_at)

abbrev pub spend : ℕ → AccountRow → AccountRow
spend now a = record a { consumed_at = some now }

-- `issueAccountToken`
unfoldable pub issue_account_token : ℕ → ℕ → ℕ → ℕ → ℕ → Vault → Option Vault
issue_account_token user purpose hash ttl now db =
    if any (λ (a : AccountRow). a.token_hash == hash) db.account
    then none
    else some (record db {
      account =
          db.account
          ++ record {
            id = db.next_id;
            user_id = user;
            purpose = purpose;
            token_hash = hash;
            expires_at = now + ttl;
            consumed_at = none;
          }
            ∷ [];
      next_id = suc db.next_id;
    })

-- The rows that the locking query of `consumeAccountToken` finds, if it is one.
abbrev pub only_row : List AccountRow → Option AccountRow
only_row [] = none
only_row (a ∷ []) = some a
only_row (a ∷ b ∷ rows) = none

-- `consumeAccountToken`; `callback` gets the user and the token's id, works in the same transaction
-- on these tables and the rest of the database (`S`), and may throw.
unfoldable pub consume_account_token :
    {S : Type 0}
    → (ℕ → ℕ → Vault × S → Option (Vault × S))
    → ℕ
    → ℕ
    → ℕ
    → Vault × S
    → Option ((Vault × S) × Bool)
consume_account_token callback hash purpose now db =
    elim (only_row (filter (is_usable hash purpose now) (db.0).account)) [
      | none ↦ some (db, false)
      | some a ↦ elim (callback a.user_id a.id db) [
        | none ↦ none
        | some done ↦
            if count_where (is_unspent a.id) (done.0).account == 1
            then some (
              (
                record (done.0) {
                  account = update_where (is_unspent a.id) (spend now) (done.0).account;
                },
                done.1,
              ),
              true,
            )
            else none
      ]
    ]
