-- ===== src/Shutdown/Gates.antt =====
-- The admission gates of shutdown.js: new work is refused from DRAINING on. A refused call is also
-- counted (`onRejectedWork`), by the gate's kind.
use Prim.Native.String.{String}
use text.Mathlib.Text.{◌==◌ as str_eq}
use end_to_end_kubernetes_ch.Base.{
  ℕ, ◌≡◌, refl, ◌↔◌, ◌⊎◌, inl, inr, Bool, true, false, not, List, [], ◌∷◌, if◌then◌else◌, any,
  Bool-cases, arith,
}
use end_to_end_kubernetes_ch.Shutdown.{running, Controller, is_draining, prestop, enter_draining}

-- `DRAIN_ALLOWLIST`
abbrev pub drain_allowlist : List String
drain_allowlist = "/liveness" ∷ "/readiness" ∷ "/metrics" ∷ "/health" ∷ "/internal/enter-drain" ∷ []

-- What a gate does with a request: call `next()`, or refuse it and count it as `kind`.
pub data Verdict : Type 0 where
  next : Verdict
  service_unavailable : Verdict
  handshake_error : Verdict
  ack_error : Verdict
  error_emit : Verdict
  drain_error : Verdict

-- The middleware of `createDrainGateMiddleware`.
unfoldable pub http_gate : Controller → String → Verdict
http_gate c path =
    if not (is_draining c)
    then next
    else if any (λ p. str_eq p path) drain_allowlist
    then next
    else service_unavailable

-- `drainHandshakeGuard`
unfoldable pub handshake_guard : Controller → Verdict
handshake_guard c = if is_draining c then handshake_error else next

-- `drainPacketGuard`, for a packet whose last argument is an acknowledgement or not.
unfoldable pub packet_guard : Controller → Bool → Verdict
packet_guard c has_ack =
    if not (is_draining c) then next else if has_ack then ack_error else error_emit

-- The gate of `roomTask` (gameSocket.js): `next` stands for linking the task onto the chain.
unfoldable pub room_gate : Controller → Verdict
room_gate c = if is_draining c then drain_error else next

-- `LOOPBACK_ADDRESSES`, `isLoopbackAddress`
abbrev pub loopback_addresses : List String
loopback_addresses = "127.0.0.1" ∷ "::1" ∷ "::ffff:127.0.0.1" ∷ []

unfoldable pub is_loopback : String → Bool
is_loopback remote = any (λ a. str_eq a remote) loopback_addresses

-- The reply of the preStop endpoint: 403, or 200 with `transitioned`.
pub data Reply : Type 0 where
  forbidden : Reply
  drained : Bool → Reply

-- `createEnterDrainHandler`
unfoldable pub enter_drain_handler : String → ℕ → Controller → Controller × Reply
enter_drain_handler remote now c =
    if is_loopback remote
    then ((enter_draining prestop now c).0, drained (enter_draining prestop now c).1)
    else (c, forbidden)

-- A kind of new work that reaches the server.
pub data Work : Type 0 where
  http : String → Work
  handshake : Work
  packet : Bool → Work
  room : Work

abbrev pub admit : Controller → Work → Verdict
admit c (http path) = http_gate c path
admit c handshake = handshake_guard c
admit c (packet has_ack) = packet_guard c has_ack
admit c room = room_gate c

abbrev pub allowlisted : Work → Bool
allowlisted (http path) = any (λ p. str_eq p path) drain_allowlist
allowlisted _ = false

-- New work is admitted exactly while the server is RUNNING or, later on, if it is a request to a
-- path of the allowlist.
pub admit_iff :
    (c : Controller) (w : Work)
    → (admit c w ≡ next) ↔ ((c.state ≡ running) ⊎ (allowlisted w ≡ true))
unfolding http_gate handshake_guard packet_guard room_gate
admit_iff c (http path) = elim (Bool-cases (any (λ p. str_eq p path) drain_allowlist)) [
  | inl e ↦ rw (e, http_gate) (λ h. inr refl, λ h. ground arith)
  | inr e ↦ rw (e, http_gate) (λ h. ground arith, λ h. ground arith)
]
admit_iff c handshake = (λ h. ground arith, λ h. ground arith)
admit_iff c (packet true) = (λ h. ground arith, λ h. ground arith)
admit_iff c (packet false) = (λ h. ground arith, λ h. ground arith)
admit_iff c room = (λ h. ground arith, λ h. ground arith)
