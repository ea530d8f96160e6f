-- ===== src/Accounts/Session.antt =====
-- Access tokens and cookies: Chess-Backend/src/services/tokens.js and
-- Chess-Backend/src/middleware/auth.js. A cookie that is missing or empty is `none`.
use Prim.Native.String.{String}
use end_to_end_kubernetes_ch.Base.{
  ℕ, Bool, true, false, Option, none, some, List, [], ◌∷◌, ◌&&◌, ◌==◌, if◌then◌else◌, filter,
}
use end_to_end_kubernetes_ch.Store.{is_some}
use end_to_end_kubernetes_ch.Tokens.{refresh_max_age}
use end_to_end_kubernetes_ch.Accounts.{
  Account, PublicFields, Site, Claims, Outside, Moment, is_account,
}

-- `cookieOptions`
pub record CookieOptions : Type 0 where
  pub http_only : Bool
  pub secure : Bool
  pub same_site_strict : Bool
  pub max_age : Option ℕ

pub data CookieName : Type 0 where
  access_cookie refresh_cookie : CookieName

-- A `Set-Cookie`; a cookie without a value is cleared.
pub record Cookie : Type 0 where
  pub name : CookieName
  pub value : Option String
  pub options : CookieOptions

unfoldable pub cookie_options : Moment → Option ℕ → CookieOptions
cookie_options m max_age = record {
  http_only = true;
  secure = m.production;
  same_site_strict = true;
  max_age = max_age;
}

-- 15 minutes
abbrev pub access_max_age : ℕ
access_max_age = 900000

unfoldable pub access : Moment → String → Cookie
unfolding cookie_options
access m token = record {
  name = access_cookie;
  value = some token;
  options = cookie_options m (some access_max_age);
}

unfoldable pub refresh : Moment → String → Cookie
unfolding cookie_options
refresh m token = record {
  name = refresh_cookie;
  value = some token;
  options = cookie_options m (some refresh_max_age);
}

abbrev pub cleared : Moment → CookieName → Cookie
cleared m name = record { name = name; value = none; options = cookie_options m none }

-- `clearAuthCookies`
unfoldable pub clear_auth_cookies : Moment → List Cookie
unfolding cookie_options
clear_auth_cookies m = cleared m access_cookie ∷ cleared m refresh_cookie ∷ []

pub data Body : Type 0 where
  empty : Body
  error message : String → Body
  user profile : PublicFields → Body

pub record Response : Type 0 where
  pub status : ℕ
  pub cookies : List Cookie
  pub body : Body

-- An answer that sets no cookie.
abbrev pub plain : ℕ → Body → Response
plain status body = record { status = status; cookies = []; body = body }

abbrev pub failure : ℕ → String → Response
failure status text = plain status (error text)

-- `signAccessToken`, as the payload
unfoldable pub claims_of : Account → Claims
claims_of a = record {
  id = some a.id;
  username = a.username;
  email = a.email;
  session_version = some a.session_version;
}

abbrev pub is_fresh : ℕ → List Account → Bool
is_fresh version [] = false
is_fresh version (a ∷ []) = is_some a.email_verified_at && a.session_version == version
is_fresh version (a ∷ b ∷ rest) = false

-- `activeSession`
unfoldable pub active_session : Claims → Site → Bool
active_session c w = elim c.id [
  | none ↦ false
  | some id ↦ elim c.session_version [
    | none ↦ false
    | some version ↦ is_fresh version (filter (is_account id) w.accounts)
  ]
]

-- `authMiddleware`: the payload that becomes `req.user`, or `none` for its refusal. `optionalAuth`
-- leaves `req.user` unset in the same cases.
unfoldable pub authenticate : Outside → Moment → Option String → Site → Option Claims
authenticate lib m none w = none
authenticate lib m (some token) w = elim (lib.jwt_verify token m.now) [
  | none ↦ none
  | some c ↦ if active_session c w then some c else none
]

-- The routes behind `authMiddleware`; the id of an active session is an integer.
unfoldable pub with_auth :
    Outside → Moment → Option String → Site → (ℕ → Site × Response) → Site × Response
with_auth lib m cookie w next = elim (authenticate lib m cookie w) [
  | none ↦ (w, failure 401 "Authentication required")
  | some c ↦ elim c.id [ none ↦ (w, failure 401 "Authentication required") | some id ↦ next id ]
]
