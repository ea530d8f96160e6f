-- ===== src/Shutdown/Phases.antt =====
-- The six phases of shutdown.js. Each gets its budget in ms and gives its result and how long it
-- took. What the server, the rooms, the clients and the pool do is an argument (`Deps`).
use end_to_end_kubernetes_ch.Base.{
  ℕ, zero, suc, ◌+◌, ◌-◌, Bool, true, false, Option, none, some, ◌==◌, ltb, if◌then◌else◌, min,
}
use end_to_end_kubernetes_ch.Shutdown.{Controller}
use end_to_end_kubernetes_ch.Shutdown.Deadline.{
  Promise, with_deadline, with_value_deadline, IoClose, close_io_once,
}

pub data Result : Type 0 where
  completed timeout forced : Result

-- What `drainRooms` answers.
pub record Drained : Type 0 where
  pub total : ℕ
  pub drained : ℕ
  pub timed_out : Bool

-- `none` stands for a call that throws. `inflight` is `getInflight` at a time.
pub record Deps : Type 0 where
  pub inflight : ℕ → Option ℕ
  pub drain_rooms : ℕ → Option (Promise Drained)
  pub io_close : IoClose
  pub close_cache : Option (Promise Bool)
  pub close_pool : Option (Option ℕ)

-- `phaseSettle`
unfoldable pub phase_settle : ℕ → Result × ℕ
phase_settle budget = (completed, budget)

-- `inflight`, where a call that throws counts as 0
abbrev pub inflight_at : Deps → ℕ → ℕ
inflight_at d now = elim (d.inflight now) [ none ↦ 0 | some n ↦ n ]

-- `HTTP_POLL_MS`
abbrev pub http_poll_ms : ℕ
http_poll_ms = 25

-- The polling loop of `phaseHttp`: the time at which it ends.
unfoldable pub http_wait : ℕ → Deps → ℕ → ℕ → ℕ
http_wait zero d deadline now = now
http_wait (suc fuel) d deadline now =
    let rest = http_wait fuel d deadline (now + min http_poll_ms (deadline - now)) in
    if inflight_at d now == 0 then now else if ltb now deadline then rest else now

-- `phaseHttp`: every round but the last takes at least 1 ms, so `budget + 1` rounds are enough.
unfoldable pub phase_http : Deps → ℕ → ℕ → Result × ℕ
phase_http d budget now =
    let finish = http_wait (budget + 1) d (now + budget) now in
    (if ltb 0 (inflight_at d finish) then timeout else completed, finish - now)

abbrev pub abandoned : Drained
abandoned = record { total = 0; drained = 0; timed_out = true }

-- `phaseRoom`
unfoldable pub phase_room : Deps → ℕ → Result × ℕ
phase_room d budget = elim (d.drain_rooms budget) [
  | none ↦ (timeout, 0)
  | some p ↦
      let r = with_value_deadline p budget abandoned in
      (if r.0.timed_out then timeout else completed, r.1)
]

-- A promise that settles at `s`, seen `ms` later.
abbrev pub later : ℕ → Option ℕ → Option ℕ
later ms none = none
later ms (some s) = some (s - ms)

-- `phaseSocket`
unfoldable pub phase_socket : Deps → ℕ → ℕ → ℕ → Result × ℕ
phase_socket d budget race_ms settle_ms =
    let gate = close_io_once d.io_close in
    let cap = min race_ms budget in
    let raced = with_deadline gate cap in
    if raced.0
    then (completed, raced.1)
    else (forced, raced.1 + (with_deadline (later raced.1 gate) (min settle_ms (budget - cap))).1)

-- `phaseCache`
unfoldable pub phase_cache : Deps → ℕ → Result × ℕ
phase_cache d budget = elim d.close_cache [
  | none ↦ (forced, 0)
  | some p ↦ let r = with_value_deadline p budget false in (if r.0 then completed else forced, r.1)
]

-- The outcome of `closePool()` under its deadline.
abbrev pub pool_race : Option (Option ℕ) → ℕ → Bool × ℕ
pool_race none budget = (false, 0)
pool_race (some settles) budget = with_deadline settles budget

-- `phasePg`: the pool is ended at most once.
unfoldable pub phase_pg : Deps → ℕ → Controller → Controller × Result × ℕ × Bool
phase_pg d budget c =
    if c.pool_ended
    then (c, forced, 0, false)
    else let r = pool_race d.close_pool budget in
      (record c { pool_ended = true }, if r.0 then completed else forced, r.1, true)
