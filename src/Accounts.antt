-- ===== src/Accounts.antt =====
-- Accounts and their sessions: the statements of Chess-Backend/src/models/User.js, and the values that
-- Chess-Backend/src/routes/auth.js and Chess-Backend/src/services/tokens.js exchange. What comes from
-- bcrypt, jsonwebtoken, express-validator and the hash function is in `Outside`. A time is in ms.
pub mod Session
pub mod Handlers
pub mod Versions
pub mod Ended
pub mod Keeps
pub mod SignedOut
pub mod Granted
pub mod Links
pub mod Tests
use Prim.Native.String.{String}
use Prim.Native.Char.{code}
use text.Mathlib.Text.{◌==◌ as str_eq}
use end_to_end_kubernetes_ch.Base.{
  ℕ, suc, Bool, Option, none, some, List, [], ◌∷◌, ◌++◌, ◌&&◌, ◌||◌, ◌==◌, leb, if◌then◌else◌, find,
  any, all, length,
}
use end_to_end_kubernetes_ch.Store.{update_where, count_where}
use end_to_end_kubernetes_ch.Tokens.{Vault}

-- A row of `users`; the URL of an avatar is the list of its character codes.
pub record Account : Type 0 where
  pub id : ℕ
  pub username : String
  pub email : String
  pub password_hash : String
  pub avatar_url : Option (List ℕ)
  pub bio : Option String
  pub elo_rating : ℕ
  pub session_version : ℕ
  pub email_verified_at : Option ℕ
  pub created_at : ℕ

-- `PUBLIC_KEYS`; a field that the query did not select is `none`.
pub record PublicFields : Type 0 where
  pub id : ℕ
  pub username : String
  pub email : String
  pub avatar_url : Option (Option (List ℕ))
  pub bio : Option (Option String)
  pub elo_rating : Option ℕ
  pub created_at : Option ℕ

-- A link that was mailed: its recipient, its purpose and the token in it.
pub record Mail : Type 0 where
  pub to : String
  pub purpose : ℕ
  pub token : String

-- The users, the tokens, the next serial of `users`, and the mails that were accepted.
pub record Site : Type 0 where
  pub accounts : List Account
  pub vault : Vault
  pub next_user : ℕ
  pub sent : List Mail

-- The payload of an access token; a field that is not an integer is `none`.
pub record Claims : Type 0 where
  pub id : Option ℕ
  pub username : String
  pub email : String
  pub session_version : Option ℕ

-- The libraries. `jwt_verify` has `none` where it throws.
pub record Outside : Type 0 where
  pub jwt_sign : Claims → ℕ → String
  pub jwt_verify : String → ℕ → Option Claims
  pub sha256 : String → ℕ
  pub bcrypt_hash : String → ℕ → String
  pub bcrypt_compare : String → String → Bool
  pub trim : String → String
  pub is_email : String → Bool
  pub normalize_email : String → String

-- The clock, the random values that a request draws, whether the mail server takes its mail, and
-- whether `NODE_ENV` is production.
pub record Moment : Type 0 where
  pub now : ℕ
  pub raw : String
  pub family : ℕ
  pub salt : ℕ
  pub mail_works : Bool
  pub production : Bool

-- The code points of a text.
abbrev pub codes : String → List ℕ
codes String.[] = []
codes (String.◌∷◌ c s) = code c ∷ codes s

-- `isLength({ min, max })`
abbrev pub has_length : ℕ → ℕ → String → Bool
has_length min max s = leb min (length (codes s)) && leb (length (codes s)) max

abbrev pub is_word : ℕ → Bool
is_word c =
    (leb b'a' c && leb c b'z')
    || (leb b'A' c && leb c b'Z')
    || (leb b'0' c && leb c b'9')
    || c == b'_'

-- `matches(/^[a-zA-Z0-9_]+$/)` after `isLength`
unfoldable pub is_username : String → Bool
is_username s = has_length 3 20 s && all is_word (codes s)

abbrev pub is_account : ℕ → Account → Bool
is_account id a = a.id == id

-- `User.publicFields` of a row with all columns, and of one with the columns of a rotation.
unfoldable pub public_fields : Account → PublicFields
public_fields a = record {
  id = a.id;
  username = a.username;
  email = a.email;
  avatar_url = some a.avatar_url;
  bio = some a.bio;
  elo_rating = some a.elo_rating;
  created_at = some a.created_at;
}

unfoldable pub identity_fields : Account → PublicFields
identity_fields a = record {
  id = a.id;
  username = a.username;
  email = a.email;
  avatar_url = none;
  bio = none;
  elo_rating = none;
  created_at = none;
}

abbrev pub has_email : String → Account → Bool
has_email email a = str_eq a.email email

abbrev pub has_username : String → Account → Bool
has_username name a = str_eq a.username name

-- `User.findByEmail`, `User.findByUsername` and `User.findById`
unfoldable pub find_by_email : String → Site → Option Account
find_by_email email w = find (has_email email) w.accounts

unfoldable pub find_by_username : String → Site → Option Account
find_by_username name w = find (has_username name) w.accounts

unfoldable pub find_user : ℕ → Site → Option Account
find_user id w = find (is_account id) w.accounts

-- `User.create`, which throws for a name or an address that is there.
unfoldable pub create_user : String → String → String → ℕ → Site → Option (Site × Account)
create_user name email hash now w =
    let a : Account = record {
      id = w.next_user;
      username = name;
      email = email;
      password_hash = hash;
      avatar_url = none;
      bio = none;
      elo_rating = 1200;
      session_version = 0;
      email_verified_at = none;
      created_at = now;
    } in
    if any (λ b. has_email email b || has_username name b) w.accounts
    then none
    else some (record w { accounts = w.accounts ++ a ∷ []; next_user = suc w.next_user }, a)

abbrev pub set_bio : String → Account → Account
set_bio bio a = record a { bio = some bio }

-- `User.updateProfile`
unfoldable pub update_profile : ℕ → String → Site → Site × Option Account
update_profile id bio w =
    let after : Site = record w {
      accounts = update_where (is_account id) (set_bio bio) w.accounts;
    } in
    (after, find_user id after)

abbrev pub set_avatar : List ℕ → Account → Account
set_avatar url a = record a { avatar_url = some url }

-- `User.replaceAvatar`: the row and the URL that it had; `none` where there is no row.
unfoldable pub replace_avatar : ℕ → List ℕ → Site → Site × Option (Account × Option (List ℕ))
replace_avatar id url w = elim (find_user id w) [
  | none ↦ (w, none)
  | some a ↦ (
    record w { accounts = update_where (is_account id) (set_avatar url) w.accounts },
    some (set_avatar url a, a.avatar_url),
  )
]

abbrev pub next_version : Account → Account
next_version a = record a { session_version = suc a.session_version }

-- `User.invalidateSessions`
unfoldable pub invalidate_sessions : ℕ → Site → Option Site
invalidate_sessions id w =
    if count_where (is_account id) w.accounts == 1
    then some (record w { accounts = update_where (is_account id) next_version w.accounts })
    else none
