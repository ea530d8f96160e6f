-- ===== src/Rooms/Gate.antt =====
-- What a socket has to pass: the middleware of `initSocket` of
-- Chess-Backend/src/socket/gameSocket.js (`drainHandshakeGuard`, `socketAuthentication`,
-- `drainPacketGuard` and the check of the session before every packet), in front of the handlers. The
-- process is the accounts, the controller of the shutdown and the rooms together. A packet, its checks
-- included, is one step. No statement of the rooms writes a column that the check of a session reads.
use Prim.Native.String.{String}
use end_to_end_kubernetes_ch.Base.{
  ℕ, Bool, true, false, not, Option, none, some, List, [], ◌∷◌, ◌==◌, if◌then◌else◌, filter,
}
use end_to_end_kubernetes_ch.Store.{MoveRow}
use end_to_end_kubernetes_ch.Store.Persist.{ChessJs}
use end_to_end_kubernetes_ch.Shutdown.{Controller, Source, is_draining, enter_draining}
use end_to_end_kubernetes_ch.Shutdown.Gates.{Verdict, next, handshake_guard, packet_guard}
use end_to_end_kubernetes_ch.Accounts.{Site, Claims, Outside, Moment}
use end_to_end_kubernetes_ch.Accounts.Session.{active_session, authenticate}
use end_to_end_kubernetes_ch.Accounts.Handlers.{Request, serve}
use end_to_end_kubernetes_ch.Rooms.{Env, Server, emit, to_socket, error}
use end_to_end_kubernetes_ch.Rooms.Events.{
  Event, creates, joins, moves, claims_end, resigns, accepts, requests, leaves, says, drops, handle,
}

-- The packets that have a handler, with what the client sends; a new room's id is the server's.
pub data Packet (chess : ChessJs) : Type 0 where
  creating : ℕ → Packet chess
  joining ending resigning accepting requesting leaving : Option ℕ → Packet chess
  moving : Option ℕ → chess.Request → Packet chess
  saying : Option ℕ → List ℕ → Packet chess

-- The handler's arguments: the user is `socket.data.user`, whatever the packet says.
abbrev pub event_of : {chess : ChessJs} → ℕ → ℕ → String → Packet chess → Event chess
event_of socket user name (creating id) = creates socket user name id
event_of socket user name (joining id) = joins socket user name id
event_of socket user name (ending id) = claims_end socket id
event_of socket user name (resigning id) = resigns socket id
event_of socket user name (accepting id) = accepts socket id
event_of socket user name (requesting id) = requests socket id
event_of socket user name (leaving id) = leaves socket id
event_of socket user name (moving id request) = moves socket id request
event_of socket user name (saying id text) = says socket id text

-- The process; `sockets` holds the open sockets with their `socket.data.user`.
pub record Process (chess : ChessJs) : Type 0 where
  pub site : Site
  pub control : Controller
  pub sockets : List (ℕ × Claims)
  pub server : Server chess

abbrev pub passes : Verdict → Bool
passes next = true
passes _ = false

abbrev pub session_of : ℕ → List (ℕ × Claims) → Option Claims
session_of socket [] = none
session_of socket ((s, c) ∷ rest) = if s == socket then some c else session_of socket rest

module _ (lib : Outside) (chess : ChessJs) (stored : MoveRow → chess.Request)
    (ratings : ℕ → ℕ → ℕ → ℕ × ℕ) where
  -- `io.use(drainHandshakeGuard)`, then `io.use(socketAuthentication)`, which refuses a cookie exactly
  -- when `authMiddleware` does.
  unfoldable pub connect : Moment → ℕ → Option String → Process chess → Process chess
  connect m socket cookie p =
      if passes (handshake_guard p.control)
      then elim (authenticate lib m cookie p.site) [
        | none ↦ p
        | some c ↦ record p { sockets = (socket, c) ∷ p.sockets }
      ]
      else p

  -- A handler; its tasks see the state of the controller.
  unfoldable pub run_event : Env → Event chess → Process chess → Process chess
  run_event env e p = record p {
    server =
        (handle chess stored ratings env e
          (record p.server { draining = is_draining p.control })).0;
  }

  -- The second `socket.use`: the session is checked again before every packet.
  unfoldable pub check_session : Env → ℕ → Claims → Packet chess → Process chess → Process chess
  check_session env socket c packet p =
      if active_session c p.site
      then elim c.id [
        | none ↦ p
        | some user ↦ run_event env (event_of socket user c.username packet) p
      ]
      else p

  -- A packet of a socket, with or without an acknowledgement.
  unfoldable pub receive : Env → ℕ → Bool → Packet chess → Process chess → Process chess
  receive env socket has_ack packet p = elim (session_of socket p.sockets) [
    | none ↦ p
    | some c ↦
        if passes (packet_guard p.control has_ack)
        then check_session env socket c packet p
        else record p {
          server = (emit (to_socket socket (error "Server shutting down")) p.server).0;
        }
  ]

  -- The transport's `disconnect`, which no guard sees.
  unfoldable pub close_socket : Env → ℕ → Process chess → Process chess
  close_socket env socket p =
      let q = run_event env (drops socket) p in
      record q { sockets = filter (λ (s : ℕ × Claims). not (s.0 == socket)) q.sockets }

  pub data Step : Type 0 where
    request : Moment → Request → Step
    connection : Moment → ℕ → Option String → Step
    packet : Env → ℕ → Bool → Packet chess → Step
    disconnection : Env → ℕ → Step
    drain : Source → ℕ → Step

  -- One thing that happens to the process, and a history.
  abbrev pub step : Step → Process chess → Process chess
  step (request m r) p = record p { site = (serve lib m r p.site).0 }
  step (connection m socket cookie) p = connect m socket cookie p
  step (packet env socket has_ack sent) p = receive env socket has_ack sent p
  step (disconnection env socket) p = close_socket env socket p
  step (drain source now) p = record p { control = (enter_draining source now p.control).0 }

  abbrev pub run_steps : List Step → Process chess → Process chess
  run_steps [] p = p
  run_steps (s ∷ rest) p = run_steps rest (step s p)
