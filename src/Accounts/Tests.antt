-- ===== src/Accounts/Tests.antt =====
-- A site with one user for Chess-Backend/src/routes/auth.js.
use Prim.Native.String.{String}
use text.Mathlib.Text.{◌==◌ as str_eq}
use end_to_end_kubernetes_ch.Base.{
  ℕ, ◌+◌, ◌≤◌, ◌<◌, ◌≡◌, refl, sym, ap, inl, inr, true, false, none, some, List, [], ◌∷◌, arith,
  Has, if◌then◌else◌,
}
use end_to_end_kubernetes_ch.Store.{count_where, is_some}
use end_to_end_kubernetes_ch.Tokens.{
  RefreshRow, AccountRow, consume_account_token, revoke_all_for_user, issue_refresh_token,
  insert_refresh,
}
use end_to_end_kubernetes_ch.Accounts.{
  Account, Site, Claims, Outside, Moment, is_account, find_by_email,
}
use end_to_end_kubernetes_ch.Accounts.Session.{
  access, refresh, claims_of, active_session, authenticate,
}
use end_to_end_kubernetes_ch.Accounts.Handlers.{
  Request, registers, logs_in, refreshes, establish_session, login, logout, refresh_session,
  serve_each, reset_password, verify_email, follow_link, change_password, confirm_email,
}
use end_to_end_kubernetes_ch.Accounts.Links.{invalid_link, verify_email-once, reset_password-once}
use end_to_end_kubernetes_ch.Accounts.SignedOut.{logout-ends_sessions}
use end_to_end_kubernetes_ch.Accounts.Granted.{login-authenticate}

abbrev pub ana : Account
ana = record {
  id = 1;
  username = "ana";
  email = "ana@x";
  password_hash = "secret";
  avatar_url = none;
  bio = none;
  elo_rating = 1200;
  session_version = 3;
  email_verified_at = some 5;
  created_at = 1;
}

abbrev pub ana_claims : Claims
ana_claims = record { id = some 1; username = "ana"; email = "ana@x"; session_version = some 3 }

-- Every token is of this user and of version 3, and expires at 1000000.
abbrev pub lib : Outside
lib = record {
  jwt_sign = λ c now. "jwt";
  jwt_verify = λ token now. some ana_claims;
  sha256 = λ token. if str_eq token "old" then 7 else 8;
  bcrypt_hash = λ password salt. password;
  bcrypt_compare = λ password word. str_eq password word;
  trim = λ s. s;
  is_email = λ s. true;
  normalize_email = λ s. s;
}

abbrev pub at : ℕ → Moment
at now = record {
  now = now;
  raw = "new";
  family = 4;
  salt = 0;
  mail_works = true;
  production = true;
}

abbrev pub old_token : RefreshRow
old_token = record {
  id = 1;
  user_id = 1;
  family_id = 2;
  token_hash = 7;
  expires_at = 9000000;
  revoked_at = none;
  consumed_at = none;
  replaced_by = none;
}

abbrev pub site : Site
site = record {
  accounts = ana ∷ [];
  vault = record { refresh = old_token ∷ []; account = []; users = 1 ∷ []; next_id = 2 };
  next_user = 2;
  sent = [];
}

abbrev pub later_requests : List (Moment × Request)
later_requests =
    (at 20, logs_in "ana@x" "secret")
    ∷ (at 30, refreshes (some "old"))
    ∷ (at 40, registers "bob" "bob@x" "0123456789")
    ∷ []

logout-ends_sessions_example :
    ((logout lib (at 10) (some "jwt") site).1.status ≡ 204)
    × (active_session ana_claims
          (serve_each lib later_requests (logout lib (at 10) (some "jwt") site).0)
        ≡ false)
    × ((refresh_session lib
          (at 50)
          (some "old")
          (serve_each lib later_requests (logout lib (at 10) (some "jwt") site).0)).1.status
        ≡ 401)
unfolding authenticate active_session
logout-ends_sessions_example =
    logout-ends_sessions lib (at 10) (some "jwt") site ana_claims ana_claims 1 3 3 "old" old_token
      later_requests (at 50) refl refl refl (omega arith) refl refl (omega arith) refl refl

one_ana : (id : ℕ) → count_where (is_account id) site.accounts ≤ 1
one_ana id = ground arith

verifies_ana :
    (b : Account) (now at_time : ℕ)
    → Has b site.accounts
    → at_time < now + 900000
    → lib.jwt_verify (lib.jwt_sign (claims_of b) now) at_time ≡ some (claims_of b)
unfolding claims_of
verifies_ana b now at_time (inl e) h = ap (λ a. some (claims_of a)) (sym e)
verifies_ana b now at_time (inr m) h = elim m [ ]

login-authenticate_example :
    (a : Account) × (find_by_email "ana@x" site ≡ some a)
    × (lib.bcrypt_compare "secret" a.password_hash ≡ true)
    × (is_some a.email_verified_at ≡ true)
    × ((login lib (at 10) "ana@x" "secret" site).1.cookies
        ≡ access (at 10) "jwt" ∷ refresh (at 10) "new" ∷ [])
    × (authenticate lib (at 20) (some "jwt") (login lib (at 10) "ana@x" "secret" site).0
        ≡ some (claims_of a))
unfolding login establish_session find_by_email issue_refresh_token insert_refresh
login-authenticate_example =
    login-authenticate lib (at 10) (at 20) "ana@x" "secret" site one_ana verifies_ana (omega arith)
      refl

-- An open token of a purpose
abbrev pub open_row : ℕ → ℕ → ℕ → AccountRow
open_row id purpose hash = record {
  id = id;
  user_id = 1;
  purpose = purpose;
  token_hash = hash;
  expires_at = 500;
  consumed_at = none;
}

-- Two links of each purpose are open; the one that is followed spends the other too.
abbrev pub linked : Site
linked = record site {
  vault = record (site.vault) {
    account = open_row 1 0 8 ∷ open_row 2 0 9 ∷ open_row 3 1 8 ∷ open_row 4 1 9 ∷ [];
  };
}

abbrev pub link : String
link = "abcdefghijklmnopqrst"

abbrev pub reset_site : Site
reset_site = (reset_password lib (at 100) link "0123456789" linked).0

reset_password-once_example :
    reset_password lib (at 200) link "9876543210" reset_site ≡ (reset_site, invalid_link)
unfolding reset_password follow_link change_password consume_account_token revoke_all_for_user
reset_password-once_example =
    reset_password-once lib (at 100) (at 200) link "0123456789" "9876543210" linked (omega arith)
      refl refl

abbrev pub verified_site : Site
verified_site = (verify_email lib (at 100) link linked).0

verify_email-once_example :
    verify_email lib (at 200) link verified_site ≡ (verified_site, invalid_link)
unfolding verify_email follow_link confirm_email consume_account_token
verify_email-once_example = verify_email-once lib (at 100) (at 200) link linked (omega arith) refl
