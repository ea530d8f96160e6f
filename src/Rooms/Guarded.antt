-- ===== src/Rooms/Guarded.antt =====
-- The sockets of a user who has logged out (the middleware of `initSocket` of
-- Chess-Backend/src/socket/gameSocket.js with Chess-Backend/src/routes/auth.js).
use Prim.Native.String.{String}
use end_to_end_kubernetes_ch.Base.{
  ℕ, suc, ◌<◌, ◌≤◌, ◌≡◌, ◌≢◌, refl, inl, inr, Bool, false, Option, some, List, [], ◌∷◌, arith, find,
  Bool-cases, Option-cases,
}
use end_to_end_kubernetes_ch.Store.{MoveRow}
use end_to_end_kubernetes_ch.Store.Persist.{ChessJs}
use end_to_end_kubernetes_ch.Shutdown.Gates.{handshake_guard, packet_guard}
use end_to_end_kubernetes_ch.Tokens.{RefreshRow, has_hash}
use end_to_end_kubernetes_ch.Accounts.{Claims, Outside, Moment}
use end_to_end_kubernetes_ch.Accounts.Session.{active_session, authenticate}
use end_to_end_kubernetes_ch.Accounts.Handlers.{logs_out, refresh_session}
use end_to_end_kubernetes_ch.Accounts.Ended.{IsOut}
use end_to_end_kubernetes_ch.Accounts.Keeps.{serve-Keeps}
use end_to_end_kubernetes_ch.Accounts.SignedOut.{
  logout-IsOut, IsOut-inactive, authenticated-active, refresh_session-refused,
}
use end_to_end_kubernetes_ch.Rooms.{Env, emit}
use end_to_end_kubernetes_ch.Rooms.Refusals.{Untouched}
use end_to_end_kubernetes_ch.Rooms.Gate.{
  Packet, Process, passes, session_of, connect, run_event, check_session, receive, close_socket,
  Step, request, connection, packet, disconnection, drain, step, run_steps,
}

module _ (lib : Outside) (chess : ChessJs) (stored : MoveRow → chess.Request)
    (ratings : ℕ → ℕ → ℕ → ℕ × ℕ) where
  connect-site :
      (m : Moment) (socket : ℕ) (cookie : Option String) (p : Process chess)
      → (connect lib chess stored ratings m socket cookie p).site ≡ p.site
  unfolding connect
  connect-site m socket cookie p = elim (Bool-cases (passes (handshake_guard p.control))) [
    | inr e ↦ rw e refl
    | inl e ↦ elim (Option-cases (authenticate lib m cookie p.site)) [
      | inl f ↦ rw (e, f) refl
      | inr (c, f) ↦ rw (e, f) refl
    ]
  ]

  check_session-site :
      (env : Env) (socket : ℕ) (c : Claims) (sent : Packet chess) (p : Process chess)
      → (check_session lib chess stored ratings env socket c sent p).site ≡ p.site
  unfolding check_session run_event
  check_session-site env socket c sent p = elim (Bool-cases (active_session c p.site)) [
    | inr e ↦ rw e refl
    | inl e ↦ elim (Option-cases c.id) [ inl f ↦ rw (e, f) refl | inr (user, f) ↦ rw (e, f) refl ]
  ]

  receive-site :
      (env : Env) (socket : ℕ) (has_ack : Bool) (sent : Packet chess) (p : Process chess)
      → (receive lib chess stored ratings env socket has_ack sent p).site ≡ p.site
  unfolding receive
  receive-site env socket has_ack sent p = elim (Option-cases (session_of socket p.sockets)) [
    | inl e ↦ rw (receive, e) refl
    | inr (c, e) ↦ elim (Bool-cases (passes (packet_guard p.control has_ack))) [
      | inl f ↦ rw (receive, e, f) (check_session-site env socket c sent p)
      | inr f ↦ rw (receive, e, f) refl
    ]
  ]

  module _ (id version hash : ℕ) where
    step-IsOut :
        (s : Step lib chess stored ratings) (p : Process chess)
        → IsOut id version hash p.site
        → IsOut id version hash (step lib chess stored ratings s p).site
    unfolding close_socket run_event
    step-IsOut (request m r) p h = serve-Keeps id version hash lib m r p.site h
    step-IsOut (connection m socket cookie) p h = rw (connect-site m socket cookie p) h
    step-IsOut (packet env socket has_ack sent) p h = rw (receive-site env socket has_ack sent p) h
    step-IsOut (disconnection env socket) p h = h
    step-IsOut (drain source now) p h = h

    run_steps-IsOut :
        (history : List (Step lib chess stored ratings)) (p : Process chess)
        → IsOut id version hash p.site
        → IsOut id version hash (run_steps lib chess stored ratings history p).site
    run_steps-IsOut [] p h = h
    run_steps-IsOut (s ∷ rest) p h =
        run_steps-IsOut rest (step lib chess stored ratings s p) (step-IsOut s p h)

  -- A packet under a session that is not active
  receive-inactive :
      (env : Env) (socket : ℕ) (has_ack : Bool) (sent : Packet chess) (p : Process chess)
      (d : Claims)
      → session_of socket p.sockets ≡ some d
      → active_session d p.site ≡ false
      → Untouched p.server (receive lib chess stored ratings env socket has_ack sent p).server
  unfolding receive check_session emit
  receive-inactive env socket has_ack sent p d e n =
      elim (Bool-cases (passes (packet_guard p.control has_ack))) [
        | inl f ↦ rw (receive, e, f, check_session, n) (refl, refl, refl)
        | inr f ↦ rw (receive, e, f) (refl, refl, refl)
      ]

  -- After a logout with a valid access token, and over every later history of requests, connections,
  -- packets, disconnections and drains: a socket that is still open under a token of the user with the
  -- same or an earlier session version changes no table, room or vote by any packet, no cookie is
  -- accepted as such a token, and a refresh token that the user had is answered 401.
  pub logout-cuts_sockets :
      (m : Moment) (cookie : Option String) (p : Process chess) (c d : Claims)
      (id version earlier : ℕ) (token : String) (row : RefreshRow)
      (history : List (Step lib chess stored ratings)) (later : Moment) (other : Option String)
      (env : Env) (socket : ℕ) (has_ack : Bool) (sent : Packet chess)
      → authenticate lib m cookie p.site ≡ some c
      → c.id ≡ some id
      → c.session_version ≡ some version
      → id < p.site.next_user
      → d.id ≡ some id
      → d.session_version ≡ some earlier
      → earlier ≤ version
      → find (has_hash (lib.sha256 token)) p.site.vault.refresh ≡ some row
      → row.user_id ≡ id
      → session_of socket
          (run_steps lib chess stored ratings (request m (logs_out cookie) ∷ history) p).sockets
        ≡ some d
      → let q = run_steps lib chess stored ratings (request m (logs_out cookie) ∷ history) p in
        Untouched q.server (receive lib chess stored ratings env socket has_ack sent q).server
        × (authenticate lib later other q.site ≢ some d)
        × ((refresh_session lib later (some token) q.site).1.status ≡ 401)
  logout-cuts_sockets m cookie p c d id version earlier token row history later other env socket
        has_ack sent e ci cv n di dv le f u open_under =
      let (_, out) =
        logout-IsOut lib m cookie p.site c id version (lib.sha256 token) row e ci cv n f u in
      let q : Process chess =
        run_steps lib chess stored ratings (request m (logs_out cookie) ∷ history) p in
      let ended =
        run_steps-IsOut id (suc version) (lib.sha256 token) history
          (step lib chess stored ratings (request m (logs_out cookie)) p) out in
      let inactive =
        IsOut-inactive id (suc version) (lib.sha256 token) earlier d q.site ended di dv
          (omega (arith, le)) in
      let (_, _, revoked) = ended in
      (
        receive-inactive env socket has_ack sent q d open_under inactive,
        λ a. cc (authenticated-active lib later other q.site d a, inactive),
        refresh_session-refused lib later token q.site revoked,
      )
