-- ===== src/Shutdown.antt =====
-- Chess-Backend/src/services/shutdown.js: the graceful shutdown of the server. This file has the
-- module state, the two transitions, and the admission gates; `Phases` the six bounded phases and
-- their deadlines, `Sequence` the runner and the signal handlers.
pub mod Deadline
pub mod Phases
pub mod Sequence
pub mod Gates
pub mod Budget
pub mod Once
pub mod Tests
use end_to_end_kubernetes_ch.Base.{
  ℕ, Bool, true, false, not, Option, none, some, ◌==◌, if◌then◌else◌,
}

-- `STATES`
pub data State : Type 0 where
  running draining stopping stopped : State

-- Its number in `STATES`.
abbrev pub rank : State → ℕ
rank running = 0
rank draining = 1
rank stopping = 2
rank stopped = 3

-- The module state, and the two flags of `app.locals` that the code sets.
pub record Controller : Type 0 where
  pub state : State
  pub prestop_seen : Bool
  pub sequence_started : Bool
  pub pool_ended : Bool
  pub drain_started_at : Option ℕ
  pub shutting_down : Bool
  pub startup_ready : Bool

-- What `resetShutdownForTests` sets, and the module's initial values.
abbrev pub fresh : Controller
fresh = record {
  state = running;
  prestop_seen = false;
  sequence_started = false;
  pool_ended = false;
  drain_started_at = none;
  shutting_down = false;
  startup_ready = true;
}

-- `setState`
abbrev pub set_state : State → Controller → Controller
set_state s c = record c { state = s }

-- `isDraining`: `currentState !== STATES.RUNNING`
abbrev pub is_draining : Controller → Bool
is_draining c = not (rank c.state == 0)

-- The caller of `enterDraining`: the preStop endpoint or the sequence runner with its reason.
pub data Source : Type 0 where
  prestop signal : Source

abbrev pub is_prestop : Source → Bool
is_prestop prestop = true
is_prestop signal = false

-- `enterDraining`
unfoldable pub enter_draining : Source → ℕ → Controller → Controller × Bool
enter_draining source now c = if is_draining c then (c, false) else (
  record c {
    prestop_seen = if is_prestop source then true else c.prestop_seen;
    drain_started_at = some now;
    shutting_down = true;
    state = draining;
  },
  true,
)
