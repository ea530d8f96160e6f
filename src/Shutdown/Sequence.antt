-- ===== src/Shutdown/Sequence.antt =====
-- The runner of shutdown.js: `runPhase`, `runShutdownSequence`, and the signal handlers.
use end_to_end_kubernetes_ch.Base.{
  ℕ, ◌+◌, ◌-◌, true, false, Option, none, some, List, [], ◌∷◌, ◌++◌, ltb, if◌then◌else◌, min,
}
use end_to_end_kubernetes_ch.Shutdown.{
  stopping, stopped, Controller, set_state, signal, enter_draining,
}
use end_to_end_kubernetes_ch.Shutdown.Phases.{
  Result, Deps, phase_settle, phase_http, phase_room, phase_socket, phase_cache, phase_pg,
}

pub data Phase : Type 0 where
  settle http room socket cache pg : Phase

-- `caps`: the constants of the module, with `budgets` on top.
pub record Caps : Type 0 where
  pub global : ℕ
  pub settle_ms : ℕ
  pub http_ms : ℕ
  pub room_ms : ℕ
  pub socket_ms : ℕ
  pub socket_race : ℕ
  pub socket_settle : ℕ
  pub cache_ms : ℕ
  pub pg_ms : ℕ

abbrev pub default_caps : Caps
default_caps = record {
  global = 22000;
  settle_ms = 2000;
  http_ms = 3000;
  room_ms = 6000;
  socket_ms = 2000;
  socket_race = 1500;
  socket_settle = 500;
  cache_ms = 5000;
  pg_ms = 3000;
}

-- What the run does to the outside: a finished phase with its result (`onPhase`), the one call of
-- `closePool`, and the call of `exit`.
pub data Event : Type 0 where
  phase : Phase → Result → Event
  ends_pool : Event
  exits : ℕ → Event

-- A run in progress: the clock, the module state, what was done, latest last.
pub record Run : Type 0 where
  pub now : ℕ
  pub controller : Controller
  pub trace : List Event

-- The end of `runPhase`: the phase took `elapsed` ms, and the event loop `lag` ms more.
abbrev pub after_phase : Phase → Result × ℕ → ℕ → Run → Run
after_phase name r lag s = record s {
  now = s.now + r.1 + lag;
  trace = s.trace ++ phase name r.0 ∷ [];
}

-- `remaining()`
abbrev pub remaining : Caps → ℕ → ℕ → ℕ
remaining caps started now = started + caps.global - now

module _ (d : Deps) (caps : Caps) (lag : Phase → ℕ) (started : ℕ) where
  -- `Math.min(caps.x, remaining())`
  abbrev pub budget : ℕ → Run → ℕ
  budget cap s = min cap (remaining caps started s.now)

  unfoldable pub run_settle : Run → Run
  run_settle s = after_phase settle (phase_settle (budget caps.settle_ms s)) (lag settle) s

  unfoldable pub run_http : Run → Run
  run_http s = after_phase http (phase_http d (budget caps.http_ms s) s.now) (lag http) s

  unfoldable pub run_room : Run → Run
  run_room s = after_phase room (phase_room d (budget caps.room_ms s)) (lag room) s

  unfoldable pub run_socket : Run → Run
  run_socket s =
      after_phase socket
        (phase_socket d (budget caps.socket_ms s) caps.socket_race caps.socket_settle) (lag socket)
        s

  unfoldable pub run_cache : Run → Run
  run_cache s = after_phase cache (phase_cache d (budget caps.cache_ms s)) (lag cache) s

  unfoldable pub run_pg : Run → Run
  run_pg s =
      let (c, result, elapsed, called) = phase_pg d (budget caps.pg_ms s) s.controller in
      after_phase pg (result, elapsed) (lag pg)
        (record s { controller = c; trace = s.trace ++ (if called then ends_pool ∷ [] else []) })

  -- The six `await runPhase(…)` of the sequence.
  unfoldable pub run_phases : Run → Run
  run_phases s = run_pg (run_cache (run_socket (run_room (run_http (run_settle s)))))

  -- The end of the sequence. The watchdog has fired if its time came before the phases ended; its
  -- `exit(1)` stands at the end of the trace, and the state stays STOPPING.
  unfoldable pub end_sequence : ℕ → Run → Run
  end_sequence exit_code s =
      if ltb s.now (started + (if ltb 1 caps.global then caps.global else 1))
      then record s {
        controller = set_state stopped s.controller;
        trace = s.trace ++ exits exit_code ∷ [];
      }
      else record s { trace = s.trace ++ exits 1 ∷ [] }

-- How `runShutdownSequence` answers: the promise of the first run, an error, or a run of its own.
pub data Answer : Type 0 where
  duplicate deps_missing started_run : Answer

-- What precedes the phases: DRAINING, then STOPPING.
unfoldable pub begin_sequence : ℕ → Controller → Controller
begin_sequence now c = record ((enter_draining signal now c).0) {
  startup_ready = false;
  state = stopping;
  sequence_started = true;
}

-- `runShutdownSequence`: `none` for dependencies that are not all there.
unfoldable pub run_shutdown_sequence :
    Option Deps → Caps → (Phase → ℕ) → ℕ → ℕ → Controller → Run × Answer
run_shutdown_sequence deps caps lag exit_code now c =
    if c.sequence_started
    then (record { now = now; controller = c; trace = [] }, duplicate)
    else elim deps [
      | none ↦ (record { now = now; controller = c; trace = [] }, deps_missing)
      | some d ↦ (
        end_sequence d caps lag now exit_code (
            run_phases d caps lag now
              (record { now = now; controller = begin_sequence now c; trace = [] })),
        started_run,
      )
    ]

-- Why the process is asked to stop (`onSigterm`, `onSigint`, `onUncaught`, `onRejection`).
pub data Reason : Type 0 where
  sigterm sigint uncaught_exception unhandled_rejection : Reason

-- The `exitCode` that each handler passes to `shutdown`.
abbrev pub code_of : Reason → ℕ
code_of sigterm = 0
code_of sigint = 0
code_of uncaught_exception = 1
code_of unhandled_rejection = 1

-- The handlers of `installShutdownHandlers`: a request after the first is ignored.
unfoldable pub on_request :
    Option Deps → Caps → (Phase → ℕ) → Reason → ℕ → Controller → Run × Answer
on_request deps caps lag reason now c =
    if c.sequence_started
    then (record { now = now; controller = c; trace = [] }, duplicate)
    else run_shutdown_sequence deps caps lag (code_of reason) now c
