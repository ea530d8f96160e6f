-- ===== src/Rooms/Admitted.antt =====
-- Which packets reach a handler, and as whom (the middleware of `initSocket` of
-- Chess-Backend/src/socket/gameSocket.js).
use end_to_end_kubernetes_ch.Base.{
  ℕ, ◌≡◌, ◌⊎◌, refl, inl, inr, Bool, true, false, not, none, some, Bool-cases, Option-cases,
  if◌then◌else◌,
}
use end_to_end_kubernetes_ch.Store.{MoveRow}
use end_to_end_kubernetes_ch.Store.Persist.{ChessJs}
use end_to_end_kubernetes_ch.Shutdown.{Controller, is_draining}
use end_to_end_kubernetes_ch.Shutdown.Gates.{next, ack_error, error_emit, packet_guard}
use end_to_end_kubernetes_ch.Accounts.{Site, Claims, Outside}
use end_to_end_kubernetes_ch.Accounts.Session.{active_session}
use end_to_end_kubernetes_ch.Rooms.{Env, Server, emit}
use end_to_end_kubernetes_ch.Rooms.Events.{handle}
use end_to_end_kubernetes_ch.Rooms.Refusals.{Untouched}
use end_to_end_kubernetes_ch.Rooms.Gate.{
  Packet, Process, event_of, passes, session_of, run_event, check_session, receive,
}

passes-guard :
    (b has_ack : Bool)
    → passes (if not b then next else if has_ack then ack_error else error_emit) ≡ not b
passes-guard false has_ack = refl
passes-guard true false = refl
passes-guard true true = refl

passes-packet_guard :
    (c : Controller) (has_ack : Bool) → passes (packet_guard c has_ack) ≡ not (is_draining c)
unfolding packet_guard
passes-packet_guard c has_ack = passes-guard (is_draining c) has_ack

active-id : (c : Claims) (w : Site) → active_session c w ≡ true → (user : ℕ) × (c.id ≡ some user)
unfolding active_session
active-id c w h = elim (Option-cases c.id) [
  | inl e ↦ absurd (cc (rw (active_session, e) at h))
  | inr (user, e) ↦ (user, e)
]

module _ (lib : Outside) (chess : ChessJs) (stored : MoveRow → chess.Request)
    (ratings : ℕ → ℕ → ℕ → ℕ × ℕ) (env : Env) (socket : ℕ) (has_ack : Bool) (sent : Packet chess)
    (p : Process chess) where
  -- The socket is not open, the process is draining, or the session has ended.
  pub data Barrier : Type 0 where
    closed : session_of socket p.sockets ≡ none → Barrier
    drained : is_draining p.control ≡ true → Barrier
    expired :
        (c : Claims)
        → session_of socket p.sockets ≡ some c
        → active_session c p.site ≡ false
        → Barrier

  -- The handler ran for the user of the socket's own session.
  pub record IsServed (s : Server chess) : Type 0 where
    pub claims : Claims
    pub user : ℕ
    pub is_open : session_of socket p.sockets ≡ some claims
    pub is_active : active_session claims p.site ≡ true
    pub is_user : claims.id ≡ some user
    pub is_running : is_draining p.control ≡ false
    pub is_handled :
        s
        ≡ (handle chess stored ratings env
            (event_of socket user claims.username sent)
            (record p.server { draining = false })).0

  served :
      (c : Claims) (user : ℕ)
      → session_of socket p.sockets ≡ some c
      → is_draining p.control ≡ false
      → active_session c p.site ≡ true
      → c.id ≡ some user
      → (receive lib chess stored ratings env socket has_ack sent p).server
        ≡ (handle chess stored ratings env
            (event_of socket user c.username sent)
            (record p.server { draining = false })).0
  unfolding receive check_session run_event
  served c user e f g k =
      rw (receive, e, passes-packet_guard p.control has_ack, f, check_session, g, k, run_event, f)
        refl

  -- A packet has one of two outcomes. Either it changes no table, room or vote, and that because its
  -- socket is not open, the process is draining, or the session has ended. Or the session of its
  -- socket is active, the process is not draining, and its handler runs as the user of that session.
  pub receive-IsServed :
      (Barrier
        × Untouched p.server (receive lib chess stored ratings env socket has_ack sent p).server)
      ⊎ IsServed (receive lib chess stored ratings env socket has_ack sent p).server
  unfolding receive check_session run_event emit
  receive-IsServed = elim (Option-cases (session_of socket p.sockets)) [
    | inl e ↦ inl (closed e, rw (receive, e) (refl, refl, refl))
    | inr (c, e) ↦ elim (Bool-cases (is_draining p.control)) [
      | inl f ↦
          inl (
            drained f,
            rw (receive, e, passes-packet_guard p.control has_ack, f) (refl, refl, refl),
          )
      | inr f ↦ elim (Bool-cases (active_session c p.site)) [
        | inr g ↦ inl (
          expired c e g,
          rw (receive, e, passes-packet_guard p.control has_ack, f, check_session, g)
              (refl, refl, refl),
        )
        | inl g ↦
            let (user, k) = active-id c p.site g in
            inr (record {
              claims = c;
              user = user;
              is_open = e;
              is_active = g;
              is_user = k;
              is_running = f;
              is_handled = served c user e f g k;
            })
      ]
    ]
  ]
