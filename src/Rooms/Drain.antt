-- ===== src/Rooms/Drain.antt =====
-- `drainRoomOperations` of Chess-Backend/src/socket/gameSocket.js as the dependency that the room
-- phase of a shutdown (Chess-Backend/src/services/shutdown.js) waits for. An operation is the time in
-- ms after which it settles, `none` if it never does; at a tie the timer wins.
use end_to_end_kubernetes_ch.Base.{
  ℕ, suc, ◌<◌, ◌≡◌, ◌↔◌, refl, inl, inr, true, false, not, Option, none, some, List, [], ◌∷◌, ◌&&◌,
  ltb, arith, if◌then◌else◌, length, All, Bool-cases,
}
use end_to_end_kubernetes_ch.Shutdown.Deadline.{Promise, in_time, race_time, with_value_deadline}
use end_to_end_kubernetes_ch.Shutdown.Phases.{completed, timeout, Drained, Deps, phase_room}

-- When the `Promise.all` of the operations resolves.
abbrev pub later_of : Option ℕ → Option ℕ → Option ℕ
later_of none b = none
later_of (some a) none = none
later_of (some a) (some b) = if ltb a b then some b else some a

abbrev pub all_settled : List (Option ℕ) → Option ℕ
all_settled [] = some 0
all_settled (t ∷ ts) = later_of t (all_settled ts)

-- `drained`, when the race is over
abbrev pub count_settled : ℕ → List (Option ℕ) → ℕ
count_settled cap [] = 0
count_settled cap (t ∷ ts) =
    if in_time t cap then suc (count_settled cap ts) else count_settled cap ts

-- The result of the race with the timer of `cap`, if there are operations.
abbrev pub race_result : ℕ → List (Option ℕ) → Drained
race_result cap tails = record {
  total = length tails;
  drained = count_settled cap tails;
  timed_out = not (in_time (all_settled tails) cap);
}

abbrev pub resolved : Drained → ℕ → Promise Drained
resolved v now = record { settles = some now; value = some v }

-- `drainRoomOperations`, with the tails of the rooms' operations.
unfoldable pub drain_room_operations : List (Option ℕ) → ℕ → Promise Drained
drain_room_operations [] cap = resolved (record { total = 0; drained = 0; timed_out = false }) 0
drain_room_operations (t ∷ ts) cap =
    if ltb 0 cap
    then resolved (race_result cap (t ∷ ts)) (race_time (all_settled (t ∷ ts)) cap)
    else resolved (record { total = length (t ∷ ts); drained = 0; timed_out = true }) 0

-- The server's `deps`: the room phase drains these operations.
abbrev pub with_rooms : List (Option ℕ) → Deps → Deps
with_rooms tails d = record d { drain_rooms = λ budget. some (drain_room_operations tails budget) }

later_of-in_time :
    (a b : Option ℕ) (cap : ℕ) → in_time (later_of a b) cap ≡ (in_time a cap && in_time b cap)
later_of-in_time none b cap = refl
later_of-in_time (some a) none cap = ground arith
later_of-in_time (some a) (some b) cap = ground arith

-- All of the operations settle before the timer.
abbrev pub AllSettle : ℕ → List (Option ℕ) → Type 0
AllSettle cap tails = All (λ t. in_time t cap ≡ true) tails

module _ (cap : ℕ) (positive : 0 < cap) where
  all_settled-AllSettle :
      (tails : List (Option ℕ)) → (in_time (all_settled tails) cap ≡ true) ↔ AllSettle cap tails
  all_settled-AllSettle [] = (λ h. tt, λ h. ground (arith, positive))
  all_settled-AllSettle (t ∷ ts) =
      rw (later_of-in_time t (all_settled ts) cap) (ground (arith, all_settled-AllSettle ts))

  count_settled-all :
      (tails : List (Option ℕ)) → AllSettle cap tails → count_settled cap tails ≡ length tails
  count_settled-all [] h = refl
  count_settled-all (t ∷ ts) h = rw (h.0, count_settled-all ts h.1) refl

  positive_test : ltb 0 cap ≡ true
  positive_test = ground (arith, positive)

  race_ends : (s : Option ℕ) → in_time (some (race_time s cap)) cap ≡ in_time s cap
  race_ends none = ground arith
  race_ends (some t) = ground arith

  settled-completed :
      (d : Deps) (tails : List (Option ℕ))
      → in_time (all_settled tails) cap ≡ true
      → (phase_room (with_rooms tails d) cap).0 ≡ completed
  unfolding phase_room with_value_deadline drain_room_operations
  settled-completed d [] h = ground (arith, positive)
  settled-completed d (t ∷ ts) h =
      rw (positive_test, with_value_deadline, race_ends (all_settled (t ∷ ts)), h) refl

  unsettled-timeout :
      (d : Deps) (tails : List (Option ℕ))
      → in_time (all_settled tails) cap ≡ false
      → (phase_room (with_rooms tails d) cap).0 ≡ timeout
  unfolding phase_room with_value_deadline drain_room_operations
  unsettled-timeout d [] h = absurd (ground (arith, positive, h))
  unsettled-timeout d (t ∷ ts) h =
      rw (positive_test, with_value_deadline, race_ends (all_settled (t ∷ ts)), h) refl

  drained_all :
      (tails : List (Option ℕ))
      → AllSettle cap tails
      → (drain_room_operations tails cap).value
        ≡ some (record { total = length tails; drained = length tails; timed_out = false })
  unfolding drain_room_operations
  drained_all [] h = refl
  drained_all (t ∷ ts) h =
      rw (positive_test, count_settled-all (t ∷ ts) h, (all_settled-AllSettle (t ∷ ts)).1 h) refl

  -- The room phase of a shutdown completes exactly if the last operation of every room settles before
  -- the budget is spent, and then all of them are counted as drained.
  pub phase_room-AllSettle :
      (d : Deps) (tails : List (Option ℕ))
      → ((phase_room (with_rooms tails d) cap).0 ≡ completed ↔ AllSettle cap tails)
        × (AllSettle cap tails
            → (drain_room_operations tails cap).value
              ≡ some (record { total = length tails; drained = length tails; timed_out = false }))
  phase_room-AllSettle d tails = (
    (
      λ h. elim (Bool-cases (in_time (all_settled tails) cap)) [
        | inl e ↦ (all_settled-AllSettle tails).0 e
        | inr e ↦ absurd (cc (unsettled-timeout d tails e, h))
      ],
      λ h. settled-completed d tails ((all_settled-AllSettle tails).1 h),
    ),
    drained_all tails,
  )
