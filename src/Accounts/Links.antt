-- ===== src/Accounts/Links.antt =====
-- The links of `/verify-email` and `/reset-password` of Chess-Backend/src/routes/auth.js work once.
use Prim.Native.String.{String}
use end_to_end_kubernetes_ch.Base.{
  ℕ, ◌≤◌, ◌≡◌, ◌∙◌, refl, sym, ap, inl, inr, true, Option, none, some, List, arith, ◌==◌,
  Bool-cases, Option-cases,
}
use end_to_end_kubernetes_ch.Store.{count_where}
use end_to_end_kubernetes_ch.Tokens.{Vault, consume_account_token, revoke_all_for_user}
use end_to_end_kubernetes_ch.Tokens.Consumption.{OnlySpends, consume_account_token-once}
use end_to_end_kubernetes_ch.Accounts.{Account, Site, Outside, Moment, has_length, is_account}
use end_to_end_kubernetes_ch.Accounts.Session.{Response, failure}
use end_to_end_kubernetes_ch.Accounts.Handlers.{
  email_verification, password_reset, is_other, confirm_email, change_password, follow_link,
  verify_email, reset_password,
}

abbrev pub invalid_link : Response
invalid_link = failure 400 "Invalid or expired token"

module _ (lib : Outside) (m : Moment) where
  confirm_email-OnlySpends : OnlySpends (confirm_email lib m)
  unfolding confirm_email
  confirm_email-OnlySpends owner id x y e =
      elim (Bool-cases (count_where (is_account owner) x.1 == 1)) [
        | inr k ↦ absurd (cc (rw (confirm_email, k) at e))
        | inl k ↦ (
          is_other lib m owner email_verification id,
          m.now,
          ap (λ o. elim o [ none ↦ (y.0).account | some z ↦ (z.0).account ])
              (sym (rw (confirm_email, k) at e)),
        )
      ]

  change_password-OnlySpends : (hash : String) → OnlySpends (change_password lib m hash)
  unfolding change_password revoke_all_for_user
  change_password-OnlySpends hash owner id x y e =
      elim (Bool-cases (count_where (is_account owner) x.1 == 1)) [
        | inr k ↦ absurd (cc (rw (change_password, k) at e))
        | inl k ↦ (
          is_other lib m owner password_reset id,
          m.now,
          ap (λ o. elim o [ none ↦ (y.0).account | some z ↦ (z.0).account ])
              (sym (rw (change_password, k) at e)),
        )
      ]

abbrev Work : Type 0
Work = ℕ → ℕ → Vault × List Account → Option (Vault × List Account)

-- A link that succeeded, followed again
follow_link-once :
    (lib : Outside) (m later : Moment) (callback again : Work) (purpose : ℕ) (token : String)
    (done thrown done' thrown' : Response) (w : Site)
    → OnlySpends callback
    → m.now ≤ later.now
    → thrown.status ≡ 500
    → (follow_link lib m callback purpose token done thrown w).1.status ≡ 200
    → let after = (follow_link lib m callback purpose token done thrown w).0 in
      follow_link lib later again purpose token done' thrown' after ≡ (after, invalid_link)
unfolding follow_link
follow_link-once lib m later callback again purpose token done thrown done' thrown' w spends le
      ended ok =
    elim (Option-cases
      (consume_account_token callback (lib.sha256 token) purpose m.now (w.vault, w.accounts))) [
        | inl e ↦ absurd (omega (arith, sym ended ∙ (rw (follow_link, e) at ok)))
        | inr (((vault, accounts), valid), e) ↦ elim (Bool-cases valid) [
          | inr k ↦ absurd (omega (arith, rw (follow_link, e, k) at ok))
          | inl k ↦
              let first = e ∙ ap (λ b. some ((vault, accounts), b)) k in
              let second =
                consume_account_token-once callback again (lib.sha256 token) purpose m.now later.now
                  (w.vault, w.accounts) (vault, accounts) le spends first in
              rw (follow_link, e, second, follow_link, e) refl
        ]
      ]

-- A verification link that was answered with 200 is answered 400 from then on, at any later time, and
-- changes nothing.
pub verify_email-once :
    (lib : Outside) (m later : Moment) (token : String) (w : Site)
    → m.now ≤ later.now
    → (verify_email lib m token w).1.status ≡ 200
    → verify_email lib later token (verify_email lib m token w).0
      ≡ ((verify_email lib m token w).0, invalid_link)
unfolding verify_email
verify_email-once lib m later token w le ok = elim (Bool-cases (has_length 20 200 token)) [
  | inr k ↦ absurd (omega (arith, rw (verify_email, k) at ok))
  | inl k ↦
      rw (verify_email, k)
        (follow_link-once lib m later (confirm_email lib m) (confirm_email lib later)
          email_verification token _ _ _ _ w (confirm_email-OnlySpends lib m) le refl
          (rw (verify_email, k) at ok))
]

-- A reset link that was answered with 200 is answered 400 from then on, at any later time and with any
-- password of an allowed length, and changes nothing: the password is set once.
pub reset_password-once :
    (lib : Outside) (m later : Moment) (token password again : String) (w : Site)
    → m.now ≤ later.now
    → (reset_password lib m token password w).1.status ≡ 200
    → has_length 10 128 again ≡ true
    → reset_password lib later token again (reset_password lib m token password w).0
      ≡ ((reset_password lib m token password w).0, invalid_link)
unfolding reset_password
reset_password-once lib m later token password again w le ok long =
    elim (Bool-cases (has_length 20 200 token)) [
      | inr k ↦ absurd (omega (arith, rw (reset_password, k) at ok))
      | inl k ↦ elim (Bool-cases (has_length 10 128 password)) [
        | inr l ↦ absurd (omega (arith, rw (reset_password, k, l) at ok))
        | inl l ↦
            rw (reset_password, k, l, long)
              (follow_link-once lib m later _ _ password_reset token _ _ _ _ w
                (change_password-OnlySpends lib m (lib.bcrypt_hash password m.salt)) le refl
                (rw (reset_password, k, l) at ok))
      ]
    ]
