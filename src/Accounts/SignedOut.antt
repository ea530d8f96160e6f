-- ===== src/Accounts/SignedOut.antt =====
-- What a logout ends (Chess-Backend/src/routes/auth.js).
use Prim.Native.String.{String}
use end_to_end_kubernetes_ch.Base.{
  ℕ, suc, ◌≤◌, ◌<◌, ◌≡◌, ◌∙◌, sym, ap, subst, inl, inr, true, false, Option, none, some, List, [],
  ◌∷◌, arith, ◌==◌, find, filter, Bool-cases, Option-cases,
}
use end_to_end_kubernetes_ch.Store.{update_where, count_where}
use end_to_end_kubernetes_ch.Tokens.{RefreshRow, has_hash, revoke_all_for_user}
use end_to_end_kubernetes_ch.Tokens.Revoked.{
  IsRevoked, rotate_refresh_token-refused, revoke_all_for_user-all,
}
use end_to_end_kubernetes_ch.Accounts.{
  Site, Claims, Outside, Moment, is_account, invalidate_sessions, next_version,
}
use end_to_end_kubernetes_ch.Accounts.Session.{
  empty, clear_auth_cookies, is_fresh, active_session, authenticate, with_auth,
}
use end_to_end_kubernetes_ch.Accounts.Versions.{next_version-not_behind, fresh_row, stale_row}
use end_to_end_kubernetes_ch.Accounts.Handlers.{
  Request, seen, refresh_session, sign_out, logout, serve, serve_each,
}
use end_to_end_kubernetes_ch.Accounts.Ended.{IsOut}
use end_to_end_kubernetes_ch.Accounts.Keeps.{serve-Keeps}

serve_each-IsOut :
    (id version hash : ℕ) (lib : Outside) (history : List (Moment × Request)) (w : Site)
    → IsOut id version hash w
    → IsOut id version hash (serve_each lib history w)
serve_each-IsOut id version hash lib [] w h = h
serve_each-IsOut id version hash lib ((m, r) ∷ rest) w h =
    serve_each-IsOut id version hash lib rest (serve lib m r w).0
      (serve-Keeps id version hash lib m r w h)

active-fresh :
    (c : Claims) (w : Site) (id version : ℕ)
    → c.id ≡ some id
    → c.session_version ≡ some version
    → active_session c w ≡ is_fresh version (filter (is_account id) w.accounts)
unfolding active_session
active-fresh c w id version e f = simp (active_session, e, f)

pub authenticated-active :
    (lib : Outside) (m : Moment) (cookie : Option String) (w : Site) (c : Claims)
    → authenticate lib m cookie w ≡ some c
    → active_session c w ≡ true
unfolding authenticate
authenticated-active lib m none w c e = cc
authenticated-active lib m (some token) w c e = elim (Option-cases (lib.jwt_verify token m.now)) [
  | inl k ↦ absurd (cc (rw (authenticate, k) at e))
  | inr (d, k) ↦ elim (Bool-cases (active_session d w)) [
    | inr l ↦ absurd (cc (rw (authenticate, k, l) at e))
    | inl l ↦
        let dc : d ≡ c =
          ap (λ o. elim o [ none ↦ d | some b ↦ b ]) (rw (authenticate, k, l) at e) in
        ap (λ x. active_session x w) (sym dc) ∙ l
  ]
]

logout-eq :
    (lib : Outside) (m : Moment) (cookie : Option String) (w : Site) (c : Claims) (id : ℕ)
    → authenticate lib m cookie w ≡ some c
    → c.id ≡ some id
    → (count_where (is_account id) w.accounts == 1) ≡ true
    → logout lib m cookie w ≡ (
      record w {
        accounts = update_where (is_account id) next_version w.accounts;
        vault = revoke_all_for_user id m.now w.vault;
      },
      record { status = 204; cookies = clear_auth_cookies m; body = empty },
    )
unfolding logout with_auth sign_out invalidate_sessions
logout-eq lib m cookie w c id e ci one =
    simp (logout, with_auth, e, ci, sign_out, invalidate_sessions, one)

pub refresh_session-refused :
    (lib : Outside) (m : Moment) (token : String) (w : Site)
    → IsRevoked (lib.sha256 token) w.vault
    → (refresh_session lib m (some token) w).1.status ≡ 401
unfolding refresh_session
refresh_session-refused lib m token w h = simp (
  refresh_session,
  rotate_refresh_token-refused (lib.sha256 token) (lib.sha256 m.raw) m.now (seen lib m w) h,
)

-- A token of an earlier version than every row of the user has
pub IsOut-inactive :
    (id later hash earlier : ℕ) (d : Claims) (w : Site)
    → IsOut id later hash w
    → d.id ≡ some id
    → d.session_version ≡ some earlier
    → earlier < later
    → active_session d w ≡ false
IsOut-inactive id later hash earlier d w (_, ahead, _) di dv lt =
    active-fresh d w id earlier di dv ∙ stale_row id earlier later w.accounts ahead lt

-- What a logout leaves, of a user who had the refresh token
pub logout-IsOut :
    (lib : Outside) (m : Moment) (cookie : Option String) (w : Site) (c : Claims)
    (id version hash : ℕ) (row : RefreshRow)
    → authenticate lib m cookie w ≡ some c
    → c.id ≡ some id
    → c.session_version ≡ some version
    → id < w.next_user
    → find (has_hash hash) w.vault.refresh ≡ some row
    → row.user_id ≡ id
    → ((logout lib m cookie w).1.status ≡ 204)
      × IsOut id (suc version) hash (logout lib m cookie w).0
logout-IsOut lib m cookie w c id version hash row e ci cv n f u =
    let (still, count) =
      fresh_row id version w.accounts
        (sym (active-fresh c w id version ci cv) ∙ authenticated-active lib m cookie w c e) in
    let answer = logout-eq lib m cookie w c id e ci (ground (arith, count)) in
    (
      ap (λ r. r.1.status) answer,
      subst (λ r. IsOut id (suc version) hash r.0) (sym answer)
          (
            n,
            next_version-not_behind id version w.accounts still,
            revoke_all_for_user-all hash id m.now w.vault row f u,
          ),
    )

-- A logout with a valid access token is answered 204, and over every later history of requests it
-- has ended the user's sessions: an access token of the user with the same or an earlier session
-- version is not active, and a refresh token that the user had is answered 401.
pub logout-ends_sessions :
    (lib : Outside) (m : Moment) (cookie : Option String) (w : Site) (c d : Claims)
    (id version earlier : ℕ) (token : String) (row : RefreshRow) (history : List (Moment × Request))
    (later : Moment)
    → authenticate lib m cookie w ≡ some c
    → c.id ≡ some id
    → c.session_version ≡ some version
    → id < w.next_user
    → d.id ≡ some id
    → d.session_version ≡ some earlier
    → earlier ≤ version
    → find (has_hash (lib.sha256 token)) w.vault.refresh ≡ some row
    → row.user_id ≡ id
    → ((logout lib m cookie w).1.status ≡ 204)
      × (active_session d (serve_each lib history (logout lib m cookie w).0) ≡ false)
      × ((refresh_session lib later
            (some token)
            (serve_each lib history (logout lib m cookie w).0)).1.status
          ≡ 401)
logout-ends_sessions lib m cookie w c d id version earlier token row history later e ci cv n di dv
      le f u =
    let (answered, out) =
      logout-IsOut lib m cookie w c id version (lib.sha256 token) row e ci cv n f u in
    let ended : Site = serve_each lib history (logout lib m cookie w).0 in
    let still_out =
      serve_each-IsOut id (suc version) (lib.sha256 token) lib history (logout lib m cookie w).0
        out in
    let (_, _, revoked) = still_out in
    (
      answered,
      IsOut-inactive id (suc version) (lib.sha256 token) earlier d ended still_out di dv
          (omega arith),
      refresh_session-refused lib later token ended revoked,
    )
