-- ===== src/Accounts/Ended.antt =====
-- Steps of the handlers of Chess-Backend/src/routes/auth.js that keep what a logout has ended.
use Prim.Native.String.{String}
use end_to_end_kubernetes_ch.Base.{
  ℕ, ◌<◌, ◌≡◌, inl, inr, false, Option, List, arith, ◌==◌, filter, any, Ensures, Bool-cases,
  Option-cases,
}
use end_to_end_kubernetes_ch.Store.{count_where}
use end_to_end_kubernetes_ch.Tokens.{
  Vault, AccountRow, is_usable, is_unspent, only_row, issue_refresh_token, issue_account_token,
  consume_account_token,
}
use end_to_end_kubernetes_ch.Tokens.Revoked.{
  IsRevoked, issue_refresh_token-IsRevoked, revoke_all_for_user-IsRevoked,
}
use end_to_end_kubernetes_ch.Accounts.{Account, Site, Outside, Moment, is_account}
use end_to_end_kubernetes_ch.Accounts.Session.{Response, authenticate, with_auth}
use end_to_end_kubernetes_ch.Accounts.Versions.{is_behind, not_behind-update}
use end_to_end_kubernetes_ch.Accounts.Handlers.{
  send_link, establish_session, verify, confirm_email, follow_link, set_password, change_password,
}

-- No row of the user is behind the version, and the token with the hash is revoked.
abbrev pub Ended : ℕ → ℕ → ℕ → Vault × List Account → Type 0
Ended id version hash (v, accounts) =
    (any (is_behind id version) accounts ≡ false) × IsRevoked hash v

abbrev pub IsOut : ℕ → ℕ → ℕ → Site → Type 0
IsOut id version hash w =
    (id < w.next_user) × (any (is_behind id version) w.accounts ≡ false) × IsRevoked hash w.vault

module _ (id version hash : ℕ) where
  pub consume-Ended :
      (callback : ℕ → ℕ → Vault × List Account → Option (Vault × List Account))
      → ((owner token : ℕ) (db : Vault × List Account)
          → Ended id version hash db
          → Ensures (Ended id version hash) (callback owner token db))
      → (token purpose now : ℕ) (db : Vault × List Account) → Ended id version hash db
      → Ensures
          (λ r. Ended id version hash r.0)
          (consume_account_token callback token purpose now db)
  unfolding consume_account_token
  consume-Ended callback keep token purpose now db h =
      elim (Option-cases (only_row (filter (is_usable token purpose now) (db.0).account))) [
        | inl e ↦ rw (consume_account_token, e) h
        | inr (a, e) ↦
            let kept = keep a.user_id a.id db h in
            elim (Option-cases (callback a.user_id a.id db)) [
              | inl k ↦ rw (consume_account_token, e, k) tt
              | inr (done, k) ↦
                  elim (Bool-cases (count_where (is_unspent a.id) (done.0).account == 1)) [
                    | inl l ↦ rw (consume_account_token, e, k, l) (rw k at kept)
                    | inr l ↦ rw (consume_account_token, e, k, l) tt
                  ]
            ]
      ]

  module _ (lib : Outside) (m : Moment) where
    pub confirm_email-Ended :
        (owner token : ℕ) (db : Vault × List Account)
        → Ended id version hash db
        → Ensures (Ended id version hash) (confirm_email lib m owner token db)
    unfolding confirm_email
    confirm_email-Ended owner token (v, accounts) h =
        elim (Bool-cases (count_where (is_account owner) accounts == 1)) [
          | inl e ↦
              rw (confirm_email, e)
                (
                  not_behind-update id version (is_account owner) (verify lib m) accounts (λ a b. b)
                      h.0,
                  h.1,
                )
          | inr e ↦ rw (confirm_email, e) tt
        ]

    pub change_password-Ended :
        (word : String) (owner token : ℕ) (db : Vault × List Account)
        → Ended id version hash db
        → Ensures (Ended id version hash) (change_password lib m word owner token db)
    unfolding change_password
    change_password-Ended word owner token (v, accounts) h =
        elim (Bool-cases (count_where (is_account owner) accounts == 1)) [
          | inl e ↦
              rw (change_password, e)
                (
                  not_behind-update id version (is_account owner) (set_password lib m word) accounts
                      (λ a b. ground (arith, b)) h.0,
                  revoke_all_for_user-IsRevoked hash owner m.now v h.1,
                )
          | inr e ↦ rw (change_password, e) tt
        ]

    abbrev pub Keeps : (Site → Site × Response) → Type 0
    Keeps handler = (w : Site) → IsOut id version hash w → IsOut id version hash (handler w).0

    pub follow_link-Keeps :
        (callback : ℕ → ℕ → Vault × List Account → Option (Vault × List Account))
        → ((owner token : ℕ) (db : Vault × List Account)
            → Ended id version hash db
            → Ensures (Ended id version hash) (callback owner token db))
        → (purpose : ℕ) (token : String) (done thrown : Response)
        → Keeps (follow_link lib m callback purpose token done thrown)
    unfolding follow_link
    follow_link-Keeps callback keep purpose token done thrown w (n, h, r) =
        let kept =
          consume-Ended callback keep (lib.sha256 token) purpose m.now (w.vault, w.accounts)
            (h, r) in
        elim (Option-cases
          (consume_account_token callback (lib.sha256 token) purpose m.now (w.vault, w.accounts))) [
            | inl e ↦ rw (follow_link, e) (n, h, r)
            | inr (d, e) ↦ let (a, b) = rw e at kept in rw (follow_link, e) (n, a, b)
          ]

    pub send_link-Keeps :
        (a : Account) (purpose ttl : ℕ) (w : Site)
        → IsOut id version hash w
        → IsOut id version hash (send_link lib m a purpose ttl w).0
    unfolding send_link issue_account_token
    send_link-Keeps a purpose ttl w h =
        elim (Bool-cases
          (any (λ (b : AccountRow). b.token_hash == lib.sha256 m.raw) w.vault.account)) [
            | inl e ↦ rw (send_link, issue_account_token, e) h
            | inr e ↦ elim (Bool-cases m.mail_works) [
              | inl k ↦ simp (send_link, issue_account_token, e, k) h
              | inr k ↦ simp (send_link, issue_account_token, e, k) h
            ]
          ]

    pub establish_session-Keeps :
        (a : Account) (w : Site)
        → IsOut id version hash w
        → IsOut id version hash (establish_session lib m a w).0
    unfolding establish_session
    establish_session-Keeps a w (n, h, r) =
        let kept =
          issue_refresh_token-IsRevoked hash a.id m.family (lib.sha256 m.raw) m.now w.vault r in
        elim (Option-cases (issue_refresh_token a.id m.family (lib.sha256 m.raw) m.now w.vault)) [
          | inl e ↦ rw (establish_session, e) (n, h, r)
          | inr (v, e) ↦ rw (establish_session, e) (n, h, rw e at kept)
        ]

    pub with_auth-Keeps :
        (cookie : Option String) (w : Site) (next : ℕ → Site × Response)
        → ((owner : ℕ) → IsOut id version hash (next owner).0)
        → IsOut id version hash w
        → IsOut id version hash (with_auth lib m cookie w next).0
    unfolding with_auth
    with_auth-Keeps cookie w next keep h = elim (Option-cases (authenticate lib m cookie w)) [
      | inl e ↦ rw (with_auth, e) h
      | inr (c, e) ↦ elim (Option-cases c.id) [
        | inl k ↦ simp (with_auth, e, k) h
        | inr (owner, k) ↦ simp (with_auth, e, k) (keep owner)
      ]
    ]
