-- ===== src/Accounts/Handlers.antt =====
-- The routes of Chess-Backend/src/routes/auth.js, but for the upload of avatars. A handler maps the
-- database that it finds to the one that it leaves, and answers; statements outside a transaction
-- stay when a later one throws.
use Prim.Native.String.{String}
use end_to_end_kubernetes_ch.Base.{
  ℕ, suc, Bool, true, false, not, Option, none, some, List, [], ◌∷◌, ◌&&◌, ◌||◌, ◌==◌,
  if◌then◌else◌, map,
}
use end_to_end_kubernetes_ch.Store.{update_where, count_where, is_some}
use end_to_end_kubernetes_ch.Tokens.{
  Vault, AccountRow, spend, issue_refresh_token, rotate_refresh_token, revoke_all_for_user,
  issue_account_token, consume_account_token,
}
use end_to_end_kubernetes_ch.Accounts.{
  Account, Mail, Site, Outside, Moment, has_length, is_username, is_account, public_fields,
  identity_fields, find_by_email, find_by_username, find_user, create_user, update_profile,
  invalidate_sessions,
}
use end_to_end_kubernetes_ch.Accounts.Session.{
  Response, Body, empty, message, user, profile, plain, failure, access, refresh,
  clear_auth_cookies, claims_of, with_auth,
}

abbrev pub validation_failure : Response
validation_failure = failure 400 "Invalid request"

-- The purposes of an account token.
abbrev pub email_verification : ℕ
email_verification = 0

abbrev pub password_reset : ℕ
password_reset = 1

module _ (lib : Outside) (m : Moment) where
  -- A token is issued and its link mailed; `false` where either throws.
  unfoldable pub send_link : Account → ℕ → ℕ → Site → Site × Bool
  send_link a purpose ttl w =
      elim (issue_account_token a.id purpose (lib.sha256 m.raw) ttl m.now w.vault) [
        | none ↦ (w, false)
        | some vault ↦
            let mail : Mail = record { to = a.email; purpose = purpose; token = m.raw } in
            if m.mail_works
            then (record w { vault = vault; sent = mail ∷ w.sent }, true)
            else (record w { vault = vault }, false)
      ]

  -- `establishSession`, and the answer of a login.
  unfoldable pub establish_session : Account → Site → Site × Response
  establish_session a w =
      elim (issue_refresh_token a.id m.family (lib.sha256 m.raw) m.now w.vault) [
        | none ↦ (w, failure 500 "Unable to sign in")
        | some vault ↦ (
          record w { vault = vault },
          record {
            status = 200;
            cookies = access m (lib.jwt_sign (claims_of a) m.now) ∷ refresh m m.raw ∷ [];
            body = user (public_fields a);
          },
        )
      ]

  abbrev pub unable_to_create : ℕ → Response
  unable_to_create status = failure status "Unable to create account"

  -- `/register` once name and address are free
  unfoldable pub register_new : String → String → String → Site → Site × Response
  register_new name email password w =
      elim (create_user name email (lib.bcrypt_hash password m.salt) m.now w) [
        | none ↦ (w, unable_to_create 500)
        | some made ↦
            let (after, mailed) = send_link made.1 email_verification 86400000 made.0 in
            (
              after,
              if mailed
                  then plain 201 (message "Check your email to verify your account")
                  else unable_to_create 500,
            )
      ]

  -- `POST /register`
  unfoldable pub register : String → String → String → Site → Site × Response
  register username email password w =
      let name = lib.trim username in
      let address = lib.normalize_email email in
      if not (is_username name && lib.is_email email && has_length 10 128 password)
      then (w, validation_failure)
      else if is_some (find_by_email address w) || is_some (find_by_username name w)
      then (w, unable_to_create 409)
      else register_new name address password w

  -- `user_id=$1 AND purpose=… AND id<>$2 AND consumed_at IS NULL`
  abbrev pub is_other : ℕ → ℕ → ℕ → AccountRow → Bool
  is_other owner purpose id a =
      a.user_id == owner && a.purpose == purpose && not (a.id == id) && not (is_some a.consumed_at)

  abbrev pub spend_others : ℕ → ℕ → ℕ → Vault → Vault
  spend_others owner purpose id v = record v {
    account = update_where (is_other owner purpose id) (spend m.now) v.account;
  }

  -- `email_verified_at=COALESCE(email_verified_at, CURRENT_TIMESTAMP)`
  abbrev pub verify : Account → Account
  verify a = record a {
    email_verified_at = if is_some a.email_verified_at then a.email_verified_at else some m.now;
  }

  -- The callback of `/verify-email`
  unfoldable pub confirm_email : ℕ → ℕ → Vault × List Account → Option (Vault × List Account)
  confirm_email owner id (v, accounts) =
      if count_where (is_account owner) accounts == 1
      then some (
        spend_others owner email_verification id v,
        update_where (is_account owner) verify accounts,
      )
      else none

  -- The answer to a link that was followed, with the cookies that a success clears.
  unfoldable pub follow_link :
      (ℕ → ℕ → Vault × List Account → Option (Vault × List Account))
      → ℕ
      → String
      → Response
      → Response
      → Site
      → Site × Response
  follow_link callback purpose token done thrown w =
      elim (consume_account_token callback (lib.sha256 token) purpose m.now (w.vault, w.accounts)) [
        | none ↦ (w, thrown)
        | some ((vault, accounts), valid) ↦ (
          record w { vault = vault; accounts = accounts },
          if valid then done else failure 400 "Invalid or expired token",
        )
      ]

  -- `POST /verify-email`
  unfoldable pub verify_email : String → Site → Site × Response
  verify_email token w =
      if has_length 20 200 token
      then follow_link confirm_email email_verification token (plain 200 (message "Email verified"))
          (failure 500 "Unable to verify email") w
      else (w, validation_failure)

  -- `POST /resend-verification`: the answer does not show whether there is an account.
  unfoldable pub resend_verification : String → Site → Site × Response
  resend_verification email w =
      let answer = plain 200 (message "If verification is required, an email has been sent") in
      if not (lib.is_email email)
      then (w, validation_failure)
      else elim (find_by_email (lib.normalize_email email) w) [
        | none ↦ (w, answer)
        | some a ↦
            if is_some a.email_verified_at
            then (w, answer)
            else ((send_link a email_verification 86400000 w).0, answer)
      ]

  abbrev pub invalid_credentials : Response
  invalid_credentials = failure 401 "Invalid credentials"

  -- `POST /login`. For an unknown address the source compares with a dummy hash and refuses anyway.
  unfoldable pub login : String → String → Site → Site × Response
  login email password w =
      if not (lib.is_email email)
      then (w, invalid_credentials)
      else elim (find_by_email (lib.normalize_email email) w) [
        | none ↦ (w, invalid_credentials)
        | some a ↦
            if lib.bcrypt_compare password a.password_hash && is_some a.email_verified_at
            then establish_session a w
            else (w, invalid_credentials)
      ]

  abbrev pub sign_in_again : Response
  sign_in_again = record {
    status = 401;
    cookies = clear_auth_cookies m;
    body = Body.error "Authentication required";
  }

  -- The tokens with the ids of `users` beside them, as the transaction sees them.
  abbrev pub seen : Site → Vault
  seen w = record (w.vault) { users = map (λ (a : Account). a.id) w.accounts }

  -- The answer to a rotation that was made for `a`.
  unfoldable pub renew : Account → Response
  renew a =
      if is_some a.email_verified_at
      then record {
        status = 200;
        cookies = access m (lib.jwt_sign (claims_of a) m.now) ∷ refresh m m.raw ∷ [];
        body = user (identity_fields a);
      }
      else sign_in_again

  -- `POST /refresh`
  unfoldable pub refresh_session : Option String → Site → Site × Response
  refresh_session none w = (w, failure 401 "Authentication required")
  refresh_session (some token) w =
      elim (rotate_refresh_token (lib.sha256 token) (lib.sha256 m.raw) m.now (seen w)) [
        | none ↦ (w, sign_in_again)
        | some (vault, none) ↦ (record w { vault = vault }, sign_in_again)
        | some (vault, some id) ↦ (
          record w { vault = vault },
          elim (find_user id w) [ none ↦ sign_in_again | some a ↦ renew a ],
        )
      ]

  -- `POST /logout` once authenticated
  unfoldable pub sign_out : ℕ → Site → Site × Response
  sign_out id w = elim (invalidate_sessions id w) [
    | none ↦ (w, failure 500 "Unable to sign out")
    | some after ↦ (
      record after { vault = revoke_all_for_user id m.now after.vault },
      record { status = 204; cookies = clear_auth_cookies m; body = empty },
    )
  ]

  -- `POST /logout`
  unfoldable pub logout : Option String → Site → Site × Response
  logout cookie w = with_auth lib m cookie w (λ id. sign_out id w)

  -- `POST /forgot-password`
  unfoldable pub forgot_password : String → Site → Site × Response
  forgot_password email w =
      let generic = plain 200 (message "If that account exists, a reset email has been sent") in
      if not (lib.is_email email)
      then (w, validation_failure)
      else elim (find_by_email (lib.normalize_email email) w) [
        | none ↦ (w, generic)
        | some a ↦ ((send_link a password_reset 3600000 w).0, generic)
      ]

  -- `password_hash=$2, session_version=session_version+1`
  abbrev pub set_password : String → Account → Account
  set_password hash a = record a { password_hash = hash; session_version = suc a.session_version }

  -- The callback of `/reset-password`
  unfoldable pub change_password :
      String → ℕ → ℕ → Vault × List Account → Option (Vault × List Account)
  change_password hash owner id (v, accounts) =
      if count_where (is_account owner) accounts == 1
      then some (
        spend_others owner password_reset id (revoke_all_for_user owner m.now v),
        update_where (is_account owner) (set_password hash) accounts,
      )
      else none

  -- `POST /reset-password`
  unfoldable pub reset_password : String → String → Site → Site × Response
  reset_password token password w =
      if has_length 20 200 token && has_length 10 128 password
      then follow_link (change_password (lib.bcrypt_hash password m.salt)) password_reset token
          (record {
            status = 200;
            cookies = clear_auth_cookies m;
            body = message "Password reset complete";
          })
          (failure 500 "Unable to reset password") w
      else (w, validation_failure)

  -- `GET /profile`
  unfoldable pub read_profile : Option String → Site → Site × Response
  read_profile cookie w = with_auth lib m cookie w (λ id. (
    w,
    elim (find_user id w) [
      | none ↦ failure 404 "Resource not found"
      | some a ↦ plain 200 (profile (public_fields a))
    ],
  ))

  unfoldable pub save_bio : ℕ → String → Site → Site × Response
  save_bio id bio w =
      let (after, found) = update_profile id bio w in
      (
        after,
        elim found [
          | none ↦ failure 404 "Resource not found"
          | some a ↦ plain 200 (user (public_fields a))
        ],
      )

  -- `PATCH /profile`; `only_bio` tells whether the body has no key but `bio`.
  unfoldable pub edit_profile : Option String → String → Bool → Site → Site × Response
  edit_profile cookie bio only_bio w = with_auth lib m cookie w (λ id.
      if has_length 0 160 bio && only_bio then save_bio id bio w else (w, validation_failure))

-- A request, with the fields of its body and its cookies.
pub data Request : Type 0 where
  registers : String → String → String → Request
  verifies resends forgets : String → Request
  logs_in resets : String → String → Request
  refreshes logs_out reads : Option String → Request
  edits : Option String → String → Bool → Request

abbrev pub serve : Outside → Moment → Request → Site → Site × Response
serve lib m (registers name email password) w = register lib m name email password w
serve lib m (verifies token) w = verify_email lib m token w
serve lib m (resends email) w = resend_verification lib m email w
serve lib m (forgets email) w = forgot_password lib m email w
serve lib m (logs_in email password) w = login lib m email password w
serve lib m (resets token password) w = reset_password lib m token password w
serve lib m (refreshes cookie) w = refresh_session lib m cookie w
serve lib m (logs_out cookie) w = logout lib m cookie w
serve lib m (reads cookie) w = read_profile lib m cookie w
serve lib m (edits cookie bio only_bio) w = edit_profile lib m cookie bio only_bio w

-- A history of requests, each at its moment.
abbrev pub serve_each : Outside → List (Moment × Request) → Site → Site
serve_each lib [] w = w
serve_each lib ((m, r) ∷ rest) w = serve_each lib rest (serve lib m r w).0
