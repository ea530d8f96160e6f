-- ===== src/Shutdown/Tests.antt =====
-- Sample runs of Chess-Backend/src/services/shutdown.js.
use end_to_end_kubernetes_ch.Base.{
  ℕ, ◌≤◌, ◌<◌, ◌≡◌, refl, ◌⊎◌, true, none, some, List, [], ◌∷◌, arith,
}
use end_to_end_kubernetes_ch.Shutdown.{Controller, draining, stopped, fresh}
use end_to_end_kubernetes_ch.Shutdown.Deadline.{closes}
use end_to_end_kubernetes_ch.Shutdown.Phases.{Deps, http_wait, inflight_at}
use end_to_end_kubernetes_ch.Shutdown.Sequence.{
  Phase, default_caps, run_shutdown_sequence, started_run, sigterm, uncaught_exception,
}
use end_to_end_kubernetes_ch.Shutdown.Budget.{
  Trace, http_wait_bounds, run_shutdown_sequence_in_time,
}
use end_to_end_kubernetes_ch.Shutdown.Once.{
  Once, serve_all, serve_all-Once, Incoming, drains, stops,
}

-- A server with one request in flight, rooms that never drain and a pool that does not close.
abbrev pub stuck : Deps
stuck = record {
  inflight = λ now. some 1;
  drain_rooms = λ budget. none;
  io_close = closes none none;
  close_cache = none;
  close_pool = some none;
}

abbrev pub on_drain : Controller
on_drain = record fresh { state = draining }

http_wait_bounds_example :
    (0 ≤ http_wait 3001 stuck 3000 0)
    × (http_wait 3001 stuck 3000 0 ≤ 3000)
    × ((inflight_at stuck (http_wait 3001 stuck 3000 0) ≡ 0) ⊎ (http_wait 3001 stuck 3000 0 ≡ 3000))
http_wait_bounds_example = http_wait_bounds 3001 stuck 3000 0 (omega arith) (omega arith)

abbrev no_lag : Phase → ℕ
no_lag p = 10

run_shutdown_sequence_in_time_example :
    let run = run_shutdown_sequence (some stuck) default_caps no_lag 0 5 fresh in
    (run.1 ≡ started_run)
    × (run.0.now < 22005)
    × (run.0.controller.state ≡ stopped)
    × (run.0.controller.pool_ended ≡ true)
    × Trace 0 run.0.trace
run_shutdown_sequence_in_time_example =
    run_shutdown_sequence_in_time stuck no_lag 0 5 fresh refl refl (omega arith)

abbrev pub history : List Incoming
history = drains "127.0.0.1" 1 ∷ stops sigterm 2 ∷ stops uncaught_exception 3 ∷ []

serve_all-Once_example : Once (serve_all (some stuck) default_caps no_lag fresh history).1
serve_all-Once_example = serve_all-Once (some stuck) default_caps no_lag history fresh
