-- ===== src/Shutdown/Budget.antt =====
-- How long a shutdown takes: each phase keeps its budget, and the sequence ends before the watchdog.
use end_to_end_kubernetes_ch.Base.{
  ℕ, zero, suc, ◌+◌, ◌-◌, ◌≤◌, ◌<◌, ◌≡◌, ◌∙◌, ap, lt→ltb, refl, ◌⊎◌, inl, inr, true, false, Option,
  none, some, List, [], ◌∷◌, ◌++◌, if◌then◌else◌, min, arith, Option-cases,
}
use end_to_end_kubernetes_ch.Shutdown.{Controller, stopped, enter_draining}
use end_to_end_kubernetes_ch.Shutdown.Deadline.{
  with_deadline, with_deadline-le, with_value_deadline-le, close_io_once,
}
use end_to_end_kubernetes_ch.Shutdown.Phases.{
  Result, completed, forced, Deps, inflight_at, http_wait, phase_settle, phase_http, phase_room,
  phase_socket, phase_cache, phase_pg, abandoned, pool_race, later,
}
use end_to_end_kubernetes_ch.Shutdown.Sequence.{
  Phase, settle, http, room, socket, cache, pg, Caps, default_caps, Event, phase, ends_pool, exits,
  Run, run_settle, run_http, run_room, run_socket, run_cache, run_pg, run_phases, end_sequence,
  begin_sequence, run_shutdown_sequence, started_run, remaining,
}

-- The polling loop ends between its start and its deadline, and, with enough rounds, either with
-- no request in flight or at the deadline.
pub http_wait_bounds :
    (fuel : ℕ) (d : Deps) (deadline now : ℕ)
    → now ≤ deadline
    → deadline - now < fuel
    → let finish = http_wait fuel d deadline now in
      (now ≤ finish) × (finish ≤ deadline) × ((inflight_at d finish ≡ 0) ⊎ (finish ≡ deadline))
unfolding http_wait
http_wait_bounds zero d deadline now h lt = absurd (omega arith)
http_wait_bounds (suc fuel) d deadline now h lt =
    ground (arith, http_wait_bounds fuel d deadline (now + min 25 (deadline - now)))

phase_http-le : (d : Deps) (budget now : ℕ) → (phase_http d budget now).1 ≤ budget
unfolding phase_http
phase_http-le d budget now =
    let b = http_wait_bounds (budget + 1) d (now + budget) now (omega arith) (omega arith) in
    omega (arith, b)

phase_room-le : (d : Deps) (budget : ℕ) → (phase_room d budget).1 ≤ budget
unfolding phase_room
phase_room-le d budget = elim (Option-cases (d.drain_rooms budget)) [
  | inl e ↦ rw (e, phase_room) (omega arith)
  | inr (p, e) ↦ rw (e, phase_room) (with_value_deadline-le p budget abandoned)
]

phase_socket-le :
    (d : Deps) (budget race settle_ms : ℕ) → (phase_socket d budget race settle_ms).1 ≤ budget
unfolding phase_socket
phase_socket-le d budget race settle_ms = ground (
  arith,
  with_deadline-le (close_io_once d.io_close) (min race budget),
  with_deadline-le
      (later (with_deadline (close_io_once d.io_close) (min race budget)).1
        (close_io_once d.io_close))
      (min settle_ms (budget - min race budget)),
)

phase_cache-le : (d : Deps) (budget : ℕ) → (phase_cache d budget).1 ≤ budget
unfolding phase_cache
phase_cache-le d budget = elim (Option-cases d.close_cache) [
  | inl e ↦ rw (e, phase_cache) (omega arith)
  | inr (p, e) ↦ rw (e, phase_cache) (with_value_deadline-le p budget false)
]

pool_race-le : (s : Option (Option ℕ)) (budget : ℕ) → (pool_race s budget).1 ≤ budget
pool_race-le none budget = omega arith
pool_race-le (some s) budget = with_deadline-le s budget

phase_pg-le : (d : Deps) (budget : ℕ) (c : Controller) → (phase_pg d budget c).2 ≤ budget
unfolding phase_pg
phase_pg-le d budget c = ground (arith, pool_race-le d.close_pool budget)

-- A phase of the run: it appends its own entry, keeps the controller, and takes its cap and the lag
-- at most.
pub record Step (cap lag : ℕ) (name : Phase) (s t : Run) : Type 0 where
  pub in_time : t.now ≤ s.now + cap + lag
  pub entry : (r : Result) × (t.trace ≡ s.trace ++ phase name r ∷ [])
  pub same : t.controller ≡ s.controller

module _ (d : Deps) (caps : Caps) (lag : Phase → ℕ) (started : ℕ) (s : Run) where
  pub settle-Step : Step caps.settle_ms (lag settle) settle s (run_settle d caps lag started s)
  unfolding run_settle phase_settle
  settle-Step = record { in_time = omega arith; entry = (_, refl); same = refl }

  pub http-Step : Step caps.http_ms (lag http) http s (run_http d caps lag started s)
  unfolding run_http
  http-Step = record {
    in_time =
        omega (arith, phase_http-le d (min caps.http_ms (remaining caps started s.now)) s.now);
    entry = (_, refl);
    same = refl;
  }

  pub room-Step : Step caps.room_ms (lag room) room s (run_room d caps lag started s)
  unfolding run_room
  room-Step = record {
    in_time = omega (arith, phase_room-le d (min caps.room_ms (remaining caps started s.now)));
    entry = (_, refl);
    same = refl;
  }

  pub socket-Step : Step caps.socket_ms (lag socket) socket s (run_socket d caps lag started s)
  unfolding run_socket
  socket-Step = record {
    in_time = omega (
      arith,
      phase_socket-le d (min caps.socket_ms (remaining caps started s.now)) caps.socket_race
          caps.socket_settle,
    );
    entry = (_, refl);
    same = refl;
  }

  pub cache-Step : Step caps.cache_ms (lag cache) cache s (run_cache d caps lag started s)
  unfolding run_cache
  cache-Step = record {
    in_time = omega (arith, phase_cache-le d (min caps.cache_ms (remaining caps started s.now)));
    entry = (_, refl);
    same = refl;
  }

  pg_in_time : (run_pg d caps lag started s).now ≤ s.now + caps.pg_ms + lag pg
  unfolding run_pg
  pg_in_time =
      omega (arith, phase_pg-le d (min caps.pg_ms (remaining caps started s.now)) s.controller)

  pg_ends_pool :
      s.controller.pool_ended ≡ false
      → (r : Result) × ((run_pg d caps lag started s).trace
          ≡ (s.trace ++ ends_pool ∷ []) ++ phase pg r ∷ [])
        × ((run_pg d caps lag started s).controller ≡ record (s.controller) { pool_ended = true })
  unfolding run_pg phase_pg
  pg_ends_pool e = (
    if (pool_race d.close_pool (min caps.pg_ms (remaining caps started s.now))).0
        then completed
        else forced,
    rw e,
    rw e,
  )

abbrev pub total_lag : (Phase → ℕ) → ℕ
total_lag lag = lag settle + lag http + lag room + lag socket + lag cache + lag pg

-- The phases run in this order, each once, and the pool is ended last, just before its phase's entry.
abbrev pub Trace : ℕ → List Event → Type 0
Trace code trace =
    (r₁ : Result) × (r₂ : Result) × (r₃ : Result) × (r₄ : Result) × (r₅ : Result) × (r₆ : Result)
    × (trace
        ≡ phase settle r₁
          ∷ phase http r₂
          ∷ phase room r₃
          ∷ phase socket r₄
          ∷ phase cache r₅
          ∷ ends_pool
          ∷ phase pg r₆
          ∷ exits code
          ∷ [])

begin_sequence-pool_ended :
    (now : ℕ) (c : Controller) → (begin_sequence now c).pool_ended ≡ c.pool_ended
unfolding begin_sequence enter_draining
begin_sequence-pool_ended now c = ground arith

module _ (d : Deps) (lag : Phase → ℕ) (exit_code now : ℕ) (c : Controller) where
  abbrev first : Run
  first = record { now = now; controller = begin_sequence now c; trace = [] }

  abbrev finished : Run
  finished = run_phases d default_caps lag now first

  phases_done :
      c.pool_ended ≡ false
      → (finished.now ≤ now + 21000 + total_lag lag)
        × ((finished.controller ≡ record (begin_sequence now c) { pool_ended = true })
            × Trace exit_code (finished.trace ++ exits exit_code ∷ []))
  unfolding run_phases
  phases_done e =
      let s₁ = run_settle d default_caps lag now first in
      let s₂ = run_http d default_caps lag now s₁ in
      let s₃ = run_room d default_caps lag now s₂ in
      let s₄ = run_socket d default_caps lag now s₃ in
      let s₅ = run_cache d default_caps lag now s₄ in
      let p₁ = settle-Step d default_caps lag now first in
      let p₂ = http-Step d default_caps lag now s₁ in
      let p₃ = room-Step d default_caps lag now s₂ in
      let p₄ = socket-Step d default_caps lag now s₃ in
      let p₅ = cache-Step d default_caps lag now s₄ in
      let same : s₅.controller ≡ begin_sequence now c =
        p₅.same ∙ (p₄.same ∙ (p₃.same ∙ (p₂.same ∙ p₁.same))) in
      let (r, trace, kept) =
        pg_ends_pool d default_caps lag now s₅
          (ap (λ (x : Controller). x.pool_ended) same ∙ (begin_sequence-pool_ended now c ∙ e)) in
      (
        omega (
          arith,
          p₁.in_time,
          p₂.in_time,
          p₃.in_time,
          p₄.in_time,
          p₅.in_time,
          pg_in_time d default_caps lag now s₅,
        ),
        (
          kept ∙ ap (λ (x : Controller). record x { pool_ended = true }) same,
          (
            p₁.entry.0,
            p₂.entry.0,
            p₃.entry.0,
            p₄.entry.0,
            p₅.entry.0,
            r,
            rw (trace, p₅.entry.1, p₄.entry.1, p₃.entry.1, p₂.entry.1, p₁.entry.1),
          ),
        ),
      )

end_sequence_in_time :
    (d : Deps) (lag : Phase → ℕ) (started code : ℕ) (s : Run)
    → s.now < started + 22000
    → end_sequence d default_caps lag started code s ≡ record s {
      controller = record (s.controller) { state = stopped };
      trace = s.trace ++ exits code ∷ [];
    }
unfolding end_sequence
end_sequence_in_time d lag started code s h = rw (lt→ltb s.now (started + 22000) h)

pub run_first :
    (d : Deps) (caps : Caps) (lag : Phase → ℕ) (code now : ℕ) (c : Controller)
    → c.sequence_started ≡ false
    → run_shutdown_sequence (some d) caps lag code now c ≡ (
      end_sequence d caps lag now code (
          run_phases d caps lag now
            (record { now = now; controller = begin_sequence now c; trace = [] })),
      started_run,
    )
unfolding run_shutdown_sequence
run_first d caps lag code now c e = simp e

-- With the default budgets, and while the event loop adds less than a second in all, the first
-- request runs the six phases in order, ends the pool exactly once and last of all resources, ends
-- before the watchdog's 22 s, leaves the state STOPPED and calls `exit` once, with the code asked.
pub run_shutdown_sequence_in_time :
    (d : Deps) (lag : Phase → ℕ) (exit_code now : ℕ) (c : Controller)
    → c.sequence_started ≡ false
    → c.pool_ended ≡ false
    → total_lag lag < 1000
    → let run = run_shutdown_sequence (some d) default_caps lag exit_code now c in
      (run.1 ≡ started_run)
      × (run.0.now < now + 22000)
      × (run.0.controller.state ≡ stopped)
      × (run.0.controller.pool_ended ≡ true)
      × Trace exit_code run.0.trace
run_shutdown_sequence_in_time d lag exit_code now c fresh unended small =
    let (time, rest) = phases_done d lag exit_code now c unended in
    rw
      (
        run_first d default_caps lag exit_code now c fresh,
        end_sequence_in_time d lag now exit_code (finished d lag exit_code now c) (omega arith),
      )
      (refl, omega arith, refl, ap (λ (x : Controller). x.pool_ended) rest.0, rest.1)
