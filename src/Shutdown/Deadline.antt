-- ===== src/Shutdown/Deadline.antt =====
-- `withDeadline`, `withValueDeadline` and `closeIoOnce` of shutdown.js. A promise is what it settles
-- with and when, counted in ms from the call; times are exact, and at a tie the timer wins.
use end_to_end_kubernetes_ch.Base.{
  ℕ, ◌≤◌, Bool, false, Option, none, some, ltb, if◌then◌else◌, arith, min,
}

-- `value` is `none` where the promise rejects; `settles` is `none` where it never settles.
pub record Promise (A : Type 0) : Type 0 where
  pub settles : Option ℕ
  pub value : Option A

-- Does the promise settle before the timer of `ms`?
abbrev pub in_time : Option ℕ → ℕ → Bool
in_time none ms = false
in_time (some d) ms = ltb d ms

-- The time at which the race ends.
abbrev pub race_time : Option ℕ → ℕ → ℕ
race_time none ms = ms
race_time (some d) ms = if ltb d ms then d else ms

-- `withDeadline`: whether the promise settled (fulfilled or rejected) in time, and how long it took.
unfoldable pub with_deadline : Option ℕ → ℕ → Bool × ℕ
with_deadline settles ms =
    if ltb 0 ms then (in_time settles ms, race_time settles ms) else (false, 0)

abbrev pub value_or : {A : Type 0} → Option A → A → A
value_or none fallback = fallback
value_or (some a) fallback = a

-- `withValueDeadline`
unfoldable pub with_value_deadline : {A : Type 0} → Promise A → ℕ → A → A × ℕ
with_value_deadline p ms fallback =
    if ltb 0 ms
    then (
      if in_time p.settles ms then value_or p.value fallback else fallback,
      race_time p.settles ms,
    )
    else (fallback, 0)

-- How `io.close(done)` behaves: it throws, or calls `done`, or returns a promise; each at its time.
pub data IoClose : Type 0 where
  throws : IoClose
  closes : Option ℕ → Option ℕ → IoClose

abbrev pub earlier : Option ℕ → Option ℕ → Option ℕ
earlier none b = b
earlier (some a) none = some a
earlier (some a) (some b) = some (min a b)

-- `closeIoOnce`: when its promise resolves. It never rejects.
unfoldable pub close_io_once : IoClose → Option ℕ
close_io_once throws = some 0
close_io_once (closes callback promise) = earlier callback promise

race_time-le : (s : Option ℕ) (ms : ℕ) → race_time s ms ≤ ms
race_time-le none ms = omega arith
race_time-le (some d) ms = ground arith

-- A race ends by its deadline.
pub with_deadline-le : (settles : Option ℕ) (ms : ℕ) → (with_deadline settles ms).1 ≤ ms
unfolding with_deadline
with_deadline-le none ms = ground arith
with_deadline-le (some d) ms = ground arith

pub with_value_deadline-le :
    {A : Type 0} (p : Promise A) (ms : ℕ) (a : A) → (with_value_deadline p ms a).1 ≤ ms
unfolding with_value_deadline
with_value_deadline-le p ms a = ground (arith, race_time-le p.settles ms)
