-- ===== src/Shutdown/Once.antt =====
-- A history of requests to a process: preStop calls and stop requests in any order.
use Prim.Native.String.{String}
use end_to_end_kubernetes_ch.Base.{
  ℕ, ◌+◌, ◌≤◌, ◌≡◌, ◌∙◌, refl, ap, inl, inr, true, false, Option, none, some, List, [], ◌∷◌, ◌++◌,
  arith, if◌then◌else◌, Bool-cases, ltb,
}
use end_to_end_kubernetes_ch.Shutdown.{Controller, enter_draining}
use end_to_end_kubernetes_ch.Shutdown.Gates.{enter_drain_handler}
use end_to_end_kubernetes_ch.Shutdown.Phases.{Deps, Result, phase_pg}
use end_to_end_kubernetes_ch.Shutdown.Sequence.{
  Phase, Caps, Event, phase, ends_pool, exits, Run, run_settle, run_http, run_room, run_socket,
  run_cache, run_pg, run_phases, end_sequence, begin_sequence, run_shutdown_sequence, Reason,
  code_of, on_request, duplicate, deps_missing,
}
use end_to_end_kubernetes_ch.Shutdown.Budget.{
  Step, settle-Step, http-Step, room-Step, socket-Step, cache-Step, run_first,
}

-- What may reach the process: a call of the preStop endpoint, or a reason to stop.
pub data Incoming : Type 0 where
  drains : String → ℕ → Incoming
  stops : Reason → ℕ → Incoming

module _ (deps : Option Deps) (caps : Caps) (lag : Phase → ℕ) where
  abbrev pub serve : Controller → Incoming → Controller × List Event
  serve c (drains remote now) = ((enter_drain_handler remote now c).0, [])
  serve c (stops reason now) =
      let run = (on_request deps caps lag reason now c).0 in (run.controller, run.trace)

  -- The state at the end of a history, and all that was done.
  pub serve_all : Controller → List Incoming → Controller × List Event
  serve_all c [] = (c, [])
  serve_all c (i ∷ rest) =
      let (c', done) = serve c i in let later = serve_all c' rest in (later.0, done ++ later.1)

abbrev is_exit : Event → ℕ
is_exit (exits code) = 1
is_exit _ = 0

abbrev is_end : Event → ℕ
is_end ends_pool = 1
is_end _ = 0

-- How many events of a kind a trace has.
abbrev sum : (Event → ℕ) → List Event → ℕ
sum f [] = 0
sum f (e ∷ es) = f e + sum f es

abbrev pub exit_calls : List Event → ℕ
exit_calls = sum is_exit

abbrev pub pool_ends : List Event → ℕ
pool_ends = sum is_end

sum-append : (f : Event → ℕ) (xs ys : List Event) → sum f (xs ++ ys) ≡ sum f xs + sum f ys
sum-append f [] ys = omega arith
sum-append f (x ∷ xs) ys = omega (arith, sum-append f xs ys)

-- A phase adds an entry that is neither.
Step-sum :
    {cap lag : ℕ} {name : Phase} {s t : Run}
    → (f : Event → ℕ) → ((r : Result) → f (phase name r) ≡ 0)
    → Step cap lag name s t
    → sum f t.trace ≡ sum f s.trace
Step-sum {s = s} f zero_entry p =
    rw p.entry.1 (omega (arith, sum-append f s.trace, zero_entry p.entry.0))

module _ (d : Deps) (caps : Caps) (lag : Phase → ℕ) (started : ℕ) where
  run_pg-counts :
      (s : Run)
      → (exit_calls (run_pg d caps lag started s).trace ≡ exit_calls s.trace)
        × (pool_ends (run_pg d caps lag started s).trace ≤ pool_ends s.trace + 1)
        × ((run_pg d caps lag started s).controller.sequence_started
            ≡ s.controller.sequence_started)
  unfolding run_pg phase_pg
  run_pg-counts s = elim (Bool-cases s.controller.pool_ended) [
    | inl e ↦ simp e (
      omega (arith, sum-append is_exit (s.trace ++ []), sum-append is_exit s.trace),
      omega (arith, sum-append is_end (s.trace ++ []), sum-append is_end s.trace),
      refl,
    )
    | inr e ↦ simp e (
      omega (
        arith,
        sum-append is_exit (s.trace ++ ends_pool ∷ []),
        sum-append is_exit s.trace (ends_pool ∷ []),
      ),
      omega (
        arith,
        sum-append is_end (s.trace ++ ends_pool ∷ []),
        sum-append is_end s.trace (ends_pool ∷ []),
      ),
      refl,
    )
  ]

  run_phases-counts :
      (s : Run)
      → (exit_calls (run_phases d caps lag started s).trace ≡ exit_calls s.trace)
        × (pool_ends (run_phases d caps lag started s).trace ≤ pool_ends s.trace + 1)
        × ((run_phases d caps lag started s).controller.sequence_started
            ≡ s.controller.sequence_started)
  unfolding run_phases
  run_phases-counts s =
      let s₁ = run_settle d caps lag started s in
      let s₂ = run_http d caps lag started s₁ in
      let s₃ = run_room d caps lag started s₂ in
      let s₄ = run_socket d caps lag started s₃ in
      let s₅ = run_cache d caps lag started s₄ in
      let p₁ = settle-Step d caps lag started s in
      let p₂ = http-Step d caps lag started s₁ in
      let p₃ = room-Step d caps lag started s₂ in
      let p₄ = socket-Step d caps lag started s₃ in
      let p₅ = cache-Step d caps lag started s₄ in
      let (a, b, e) = run_pg-counts s₅ in
      let same : s₅.controller ≡ s.controller =
        p₅.same ∙ (p₄.same ∙ (p₃.same ∙ (p₂.same ∙ p₁.same))) in
      let exits_same : exit_calls s₅.trace ≡ exit_calls s.trace = omega (
        arith,
        Step-sum is_exit (λ r. refl) p₁,
        Step-sum is_exit (λ r. refl) p₂,
        Step-sum is_exit (λ r. refl) p₃,
        Step-sum is_exit (λ r. refl) p₄,
        Step-sum is_exit (λ r. refl) p₅,
      ) in
      let ends_same : pool_ends s₅.trace ≡ pool_ends s.trace = omega (
        arith,
        Step-sum is_end (λ r. refl) p₁,
        Step-sum is_end (λ r. refl) p₂,
        Step-sum is_end (λ r. refl) p₃,
        Step-sum is_end (λ r. refl) p₄,
        Step-sum is_end (λ r. refl) p₅,
      ) in
      (a ∙ exits_same, omega arith, e ∙ ap (λ (c : Controller). c.sequence_started) same)

  end_sequence-counts :
      (code : ℕ) (s : Run)
      → (exit_calls (end_sequence d caps lag started code s).trace ≡ exit_calls s.trace + 1)
        × (pool_ends (end_sequence d caps lag started code s).trace ≡ pool_ends s.trace)
        × ((end_sequence d caps lag started code s).controller.sequence_started
            ≡ s.controller.sequence_started)
  unfolding end_sequence
  end_sequence-counts code s =
      elim (Bool-cases (ltb s.now (started + (if ltb 1 caps.global then caps.global else 1)))) [
        | inl e ↦ rw e (
          omega (arith, sum-append is_exit s.trace (exits code ∷ [])),
          omega (arith, sum-append is_end s.trace (exits code ∷ [])),
          refl,
        )
        | inr e ↦ rw e (
          omega (arith, sum-append is_exit s.trace (exits 1 ∷ [])),
          omega (arith, sum-append is_end s.trace (exits 1 ∷ [])),
          refl,
        )
      ]

on_request_again :
    (deps : Option Deps) (caps : Caps) (lag : Phase → ℕ) (reason : Reason) (now : ℕ)
    (c : Controller)
    → c.sequence_started ≡ true
    → on_request deps caps lag reason now c
      ≡ (record { now = now; controller = c; trace = [] }, duplicate)
unfolding on_request
on_request_again deps caps lag reason now c e = simp e

on_request_first :
    (deps : Option Deps) (caps : Caps) (lag : Phase → ℕ) (reason : Reason) (now : ℕ)
    (c : Controller)
    → c.sequence_started ≡ false
    → on_request deps caps lag reason now c
      ≡ run_shutdown_sequence deps caps lag (code_of reason) now c
unfolding on_request
on_request_first deps caps lag reason now c e = simp e

run_missing :
    (caps : Caps) (lag : Phase → ℕ) (code now : ℕ) (c : Controller)
    → c.sequence_started ≡ false
    → run_shutdown_sequence none caps lag code now c
      ≡ (record { now = now; controller = c; trace = [] }, deps_missing)
unfolding run_shutdown_sequence
run_missing caps lag code now c e = simp e

-- Once the sequence has begun, no request does anything.
serve_started :
    (deps : Option Deps) (caps : Caps) (lag : Phase → ℕ) (c : Controller) (i : Incoming)
    → c.sequence_started ≡ true
    → ((serve deps caps lag c i).1 ≡ []) × ((serve deps caps lag c i).0.sequence_started ≡ true)
unfolding enter_drain_handler enter_draining
serve_started deps caps lag c (drains remote now) e = (refl, ground arith)
serve_started deps caps lag c (stops reason now) e =
    rw (serve, on_request_again deps caps lag reason now c e) (refl, e)

serve_all_started :
    (deps : Option Deps) (caps : Caps) (lag : Phase → ℕ) (c : Controller) (is : List Incoming)
    → c.sequence_started ≡ true
    → (serve_all deps caps lag c is).1 ≡ []
unfolding serve_all
serve_all_started deps caps lag c [] e = refl
serve_all_started deps caps lag c (i ∷ is) e =
    let (done, begun) = serve_started deps caps lag c i e in
    rw (done, serve_all_started deps caps lag (serve deps caps lag c i).0 is begun)

-- At most one exit and one end of the pool.
abbrev pub Once : List Event → Type 0
Once done = (exit_calls done ≤ 1) × (pool_ends done ≤ 1)

-- The events of the first request, when the sequence runs.
first_run-Once :
    (d : Deps) (caps : Caps) (lag : Phase → ℕ) (code now : ℕ) (c : Controller)
    → c.sequence_started ≡ false
    → let run = (run_shutdown_sequence (some d) caps lag code now c).0 in
      Once run.trace × (run.controller.sequence_started ≡ true)
unfolding begin_sequence
first_run-Once d caps lag code now c e =
    let first : Run = record { now = now; controller = begin_sequence now c; trace = [] } in
    let (a, b, begun) = run_phases-counts d caps lag now first in
    let (a', b', begun') =
      end_sequence-counts d caps lag now code (run_phases d caps lag now first) in
    rw (run_first d caps lag code now c e) ((omega arith, omega arith), begun' ∙ begun)

abbrev after_first :
    Option Deps → Caps → (Phase → ℕ) → List Incoming → Reason → ℕ → Controller → List Event
after_first deps caps lag is reason now c =
    let run = (run_shutdown_sequence deps caps lag (code_of reason) now c).0 in
    run.trace ++ (serve_all deps caps lag run.controller is).1

by_deps :
    (deps : Option Deps) (caps : Caps) (lag : Phase → ℕ) (is : List Incoming) (reason : Reason)
    (now : ℕ) (c : Controller)
    → c.sequence_started ≡ false
    → ((d : Option Deps) (c : Controller) → Once (serve_all d caps lag c is).1)
    → Once (after_first deps caps lag is reason now c)
by_deps none caps lag is reason now c e rest =
    rw (run_missing caps lag (code_of reason) now c e) (rest none c)
by_deps (some d) caps lag is reason now c e rest =
    let (once, begun) = first_run-Once d caps lag (code_of reason) now c e in
    let run = (run_shutdown_sequence (some d) caps lag (code_of reason) now c).0 in
    rw (serve_all_started (some d) caps lag run.controller is begun) (
      omega (arith, sum-append is_exit run.trace []),
      omega (arith, sum-append is_end run.trace []),
    )

-- Whatever preStop calls, signals and fatal errors reach the process, in any number and order, with
-- any budgets: `exit` is called at most once by the sequence, and the pool is ended at most once.
pub serve_all-Once :
    (deps : Option Deps) (caps : Caps) (lag : Phase → ℕ) (is : List Incoming) (c : Controller)
    → Once (serve_all deps caps lag c is).1
unfolding serve_all
serve_all-Once deps caps lag [] c = omega arith
serve_all-Once deps caps lag (drains remote now ∷ is) c =
    serve_all-Once deps caps lag is (enter_drain_handler remote now c).0
serve_all-Once deps caps lag (stops reason now ∷ is) c = elim (Bool-cases c.sequence_started) [
  | inl e ↦
      rw (serve_all, serve, on_request_again deps caps lag reason now c e)
        (serve_all-Once deps caps lag is c)
  | inr e ↦
      rw (serve_all, serve, on_request_first deps caps lag reason now c e)
        (by_deps deps caps lag is reason now c e (λ d. serve_all-Once d caps lag is))
]
