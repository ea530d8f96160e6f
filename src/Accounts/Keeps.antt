-- ===== src/Accounts/Keeps.antt =====
-- No handler of Chess-Backend/src/routes/auth.js lowers a session version or makes a revoked refresh
-- token good again.
use Prim.Native.String.{String}
use end_to_end_kubernetes_ch.Base.{
  ℕ, inl, inr, Bool, Option, none, some, arith, ◌==◌, ◌&&◌, ◌||◌, if◌then◌else◌, any, Bool-cases,
  Option-cases,
}
use end_to_end_kubernetes_ch.Store.{count_where, is_some}
use end_to_end_kubernetes_ch.Tokens.{rotate_refresh_token}
use end_to_end_kubernetes_ch.Tokens.Revoked.{
  rotate_refresh_token-IsRevoked, revoke_all_for_user-IsRevoked,
}
use end_to_end_kubernetes_ch.Accounts.{
  Outside, Moment, is_username, has_length, is_account, find_by_email, find_by_username, has_email,
  has_username, create_user, update_profile, set_bio, invalidate_sessions, next_version,
}
use end_to_end_kubernetes_ch.Accounts.Versions.{not_behind-update, not_behind-append}
use end_to_end_kubernetes_ch.Accounts.Handlers.{
  Request, registers, verifies, resends, forgets, logs_in, resets, refreshes, logs_out, reads,
  edits, register_new, register, confirm_email, verify_email, resend_verification, login, seen,
  refresh_session, sign_out, logout, forgot_password, change_password, validation_failure,
  reset_password, read_profile, save_bio, edit_profile, email_verification, password_reset, serve,
}
use end_to_end_kubernetes_ch.Accounts.Ended.{
  IsOut, Keeps, confirm_email-Ended, change_password-Ended, follow_link-Keeps, send_link-Keeps,
  establish_session-Keeps, with_auth-Keeps,
}

module _ (id version hash : ℕ) (lib : Outside) (m : Moment) where
  pub register_new-Keeps :
      (name email password : String)
      → Keeps id version hash lib m (register_new lib m name email password)
  unfolding register_new create_user
  register_new-Keeps name email password w (n, h, r) =
      elim (Bool-cases (any (λ b. has_email email b || has_username name b) w.accounts)) [
        | inl e ↦ rw (register_new, create_user, e) (n, h, r)
        | inr e ↦
            rw (register_new, create_user, e)
              (send_link-Keeps id version hash lib m _ email_verification 86400000 _
                (omega arith, not_behind-append id version w.accounts _ (ground (arith, n)) h, r))
      ]

  pub register-Keeps :
      (username email password : String)
      → Keeps id version hash lib m (register lib m username email password)
  unfolding register
  register-Keeps username email password w h =
      let name = lib.trim username in
      let address = lib.normalize_email email in
      elim (Bool-cases (is_username name && lib.is_email email && has_length 10 128 password)) [
        | inr e ↦ rw (register, e) h
        | inl e ↦
            elim (Bool-cases
              (is_some (find_by_email address w) || is_some (find_by_username name w))) [
                | inl k ↦ rw (register, e, k) h
                | inr k ↦ rw (register, e, k) (register_new-Keeps name address password w h)
              ]
      ]

  pub verify_email-Keeps : (token : String) → Keeps id version hash lib m (verify_email lib m token)
  unfolding verify_email
  verify_email-Keeps token w h = elim (Bool-cases (has_length 20 200 token)) [
    | inl e ↦
        rw (verify_email, e)
          (follow_link-Keeps id version hash lib m (confirm_email lib m)
            (confirm_email-Ended id version hash lib m) email_verification token _ _ w h)
    | inr e ↦ rw (verify_email, e) h
  ]

  pub reset_password-Keeps :
      (token password : String) → Keeps id version hash lib m (reset_password lib m token password)
  unfolding reset_password
  reset_password-Keeps token password w h =
      elim (Bool-cases (has_length 20 200 token && has_length 10 128 password)) [
        | inl e ↦
            rw (reset_password, e)
              (follow_link-Keeps id version hash lib m
                (change_password lib m (lib.bcrypt_hash password m.salt))
                (change_password-Ended id version hash lib m (lib.bcrypt_hash password m.salt))
                password_reset token _ _ w h)
        | inr e ↦ rw (reset_password, e) h
      ]

  pub resend_verification-Keeps :
      (email : String) → Keeps id version hash lib m (resend_verification lib m email)
  unfolding resend_verification
  resend_verification-Keeps email w h = elim (Bool-cases (lib.is_email email)) [
    | inr e ↦ rw (resend_verification, e) h
    | inl e ↦ elim (Option-cases (find_by_email (lib.normalize_email email) w)) [
      | inl k ↦ rw (resend_verification, e, k) h
      | inr (a, k) ↦ elim (Bool-cases (is_some a.email_verified_at)) [
        | inl l ↦ rw (resend_verification, e, k, l) h
        | inr l ↦
            rw (resend_verification, e, k, l)
              (send_link-Keeps id version hash lib m a email_verification 86400000 w h)
      ]
    ]
  ]

  pub forgot_password-Keeps :
      (email : String) → Keeps id version hash lib m (forgot_password lib m email)
  unfolding forgot_password
  forgot_password-Keeps email w h = elim (Bool-cases (lib.is_email email)) [
    | inr e ↦ rw (forgot_password, e) h
    | inl e ↦ elim (Option-cases (find_by_email (lib.normalize_email email) w)) [
      | inl k ↦ rw (forgot_password, e, k) h
      | inr (a, k) ↦
          rw (forgot_password, e, k)
            (send_link-Keeps id version hash lib m a password_reset 3600000 w h)
    ]
  ]

  pub login-Keeps :
      (email password : String) → Keeps id version hash lib m (login lib m email password)
  unfolding login
  login-Keeps email password w h = elim (Bool-cases (lib.is_email email)) [
    | inr e ↦ rw (login, e) h
    | inl e ↦ elim (Option-cases (find_by_email (lib.normalize_email email) w)) [
      | inl k ↦ rw (login, e, k) h
      | inr (a, k) ↦
          elim (Bool-cases
            (lib.bcrypt_compare password a.password_hash && is_some a.email_verified_at)) [
              | inl l ↦ rw (login, e, k, l) (establish_session-Keeps id version hash lib m a w h)
              | inr l ↦ rw (login, e, k, l) h
            ]
    ]
  ]

  pub refresh_session-Keeps :
      (cookie : Option String) → Keeps id version hash lib m (refresh_session lib m cookie)
  unfolding refresh_session
  refresh_session-Keeps none w h = h
  refresh_session-Keeps (some token) w (n, h, r) =
      let kept =
        rotate_refresh_token-IsRevoked hash (lib.sha256 token) (lib.sha256 m.raw) m.now
          (seen lib m w) r in
      elim (Option-cases
        (rotate_refresh_token (lib.sha256 token) (lib.sha256 m.raw) m.now (seen lib m w))) [
          | inl e ↦ rw (refresh_session, e) (n, h, r)
          | inr ((v, none), e) ↦ rw (refresh_session, e) (n, h, rw e at kept)
          | inr ((v, some owner), e) ↦ rw (refresh_session, e) (n, h, rw e at kept)
        ]

  pub sign_out-Keeps : (owner : ℕ) → Keeps id version hash lib m (sign_out lib m owner)
  unfolding sign_out invalidate_sessions
  sign_out-Keeps owner w (n, h, r) =
      elim (Bool-cases (count_where (is_account owner) w.accounts == 1)) [
        | inl e ↦
            rw (sign_out, invalidate_sessions, e)
              (
                n,
                not_behind-update id version (is_account owner) next_version w.accounts
                    (λ a b. ground (arith, b)) h,
                revoke_all_for_user-IsRevoked hash owner m.now w.vault r,
              )
        | inr e ↦ rw (sign_out, invalidate_sessions, e) (n, h, r)
      ]

  pub edit_profile-Keeps :
      (cookie : Option String) (bio : String) (only_bio : Bool)
      → Keeps id version hash lib m (edit_profile lib m cookie bio only_bio)
  unfolding edit_profile save_bio update_profile
  edit_profile-Keeps cookie bio only_bio w (n, h, r) =
      with_auth-Keeps id version hash lib m cookie w _ saved (n, h, r)
    where
      saved :
          (owner : ℕ)
          → IsOut id version hash
              (if has_length 0 160 bio && only_bio
                then save_bio lib m owner bio w
                else (w, validation_failure)).0
      saved owner = elim (Bool-cases (has_length 0 160 bio && only_bio)) [
        | inl e ↦ rw e (
          n,
          not_behind-update id version (is_account owner) (set_bio bio) w.accounts (λ a b. b) h,
          r,
        )
        | inr e ↦ rw e (n, h, r)
      ]

  pub serve-Keeps : (request : Request) → Keeps id version hash lib m (serve lib m request)
  unfolding logout read_profile
  serve-Keeps (registers name email password) w h = register-Keeps name email password w h
  serve-Keeps (verifies token) w h = verify_email-Keeps token w h
  serve-Keeps (resends email) w h = resend_verification-Keeps email w h
  serve-Keeps (forgets email) w h = forgot_password-Keeps email w h
  serve-Keeps (logs_in email password) w h = login-Keeps email password w h
  serve-Keeps (resets token password) w h = reset_password-Keeps token password w h
  serve-Keeps (refreshes cookie) w h = refresh_session-Keeps cookie w h
  serve-Keeps (logs_out cookie) w h =
      with_auth-Keeps id version hash lib m cookie w _ (λ owner. sign_out-Keeps owner w h) h
  serve-Keeps (reads cookie) w h = with_auth-Keeps id version hash lib m cookie w _ (λ owner. h) h
  serve-Keeps (edits cookie bio only_bio) w h = edit_profile-Keeps cookie bio only_bio w h
