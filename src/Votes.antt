-- ===== src/Votes.antt =====
-- The rematch votes of Chess-Backend/src/services/rematchVotes.js: the local backend and the one on
-- Valkey. The handlers of the rooms see a set of votes (`Rooms/Rematch`), which both implement. The
-- key of a game is its id: the prefix `rematch:` is left out.
pub mod Valkey
pub mod Counts
pub mod LocalSets
pub mod Refines
pub mod Tests
use Prim.Native.String.{String}
use text.Mathlib.Text.{◌==◌ as str_eq}
use end_to_end_kubernetes_ch.Base.{
  ℕ, suc, Bool, true, false, not, Option, none, some, List, [], ◌∷◌, ◌++◌, ◌==◌, if◌then◌else◌, any,
  filter, length,
}
use end_to_end_kubernetes_ch.Rooms.Rematch.{add_vote, vote_count, remove_vote, clear_votes}

-- What a call gives: a count, whether it was carried out, an `Error` for an id that is not a positive
-- integer, or a `RematchUnavailable`.
pub data Answer : Type 0 where
  counted : ℕ → Answer
  carried_out : Bool → Answer
  refused unavailable : Answer

-- `keyForGame`; `none` where it throws.
abbrev pub key_for_game : ℕ → Option ℕ
key_for_game game = if game == 0 then none else some game

-- `assertUserId` passes.
abbrev pub is_user_id : ℕ → Bool
is_user_id user = not (user == 0)

-- `votes` of the local backend: a map in the order of insertion, from keys to sets.
abbrev pub VoteMap : Type 0
VoteMap = List (ℕ × List ℕ)

abbrev pub get_set : ℕ → VoteMap → Option (List ℕ)
get_set key [] = none
get_set key ((k, set) ∷ m) = if k == key then some set else get_set key m

abbrev pub put_set : ℕ → List ℕ → VoteMap → VoteMap
put_set key set [] = (key, set) ∷ []
put_set key set ((k, old) ∷ m) = if k == key then (key, set) ∷ m else (k, old) ∷ put_set key set m

abbrev pub delete_set : ℕ → VoteMap → VoteMap
delete_set key m = filter (λ (entry : ℕ × List ℕ). not (entry.0 == key)) m

-- `Set.add` and `Set.delete`
abbrev pub add_member : ℕ → List ℕ → List ℕ
add_member user set = if any (λ u. u == user) set then set else set ++ user ∷ []

abbrev pub delete_member : ℕ → List ℕ → List ℕ
delete_member user set = filter (λ u. not (u == user)) set

-- `votes.get(key)`, with the new set that `addVote` makes where there is none
abbrev pub set_of : ℕ → VoteMap → List ℕ
set_of key m = elim (get_set key m) [ none ↦ [] | some set ↦ set ]

-- `addVote` of the local backend
unfoldable pub local_add : ℕ → ℕ → VoteMap → VoteMap × Answer
local_add game user m = elim (key_for_game game) [
  | none ↦ (m, refused)
  | some key ↦
      let set = add_member user (set_of key m) in
      if is_user_id user then (put_set key set m, counted (length set)) else (m, refused)
]

-- `removeVote` of the local backend, which does not look at the user's id
unfoldable pub local_remove : ℕ → ℕ → VoteMap → VoteMap × Answer
local_remove game user m = elim (key_for_game game) [
  | none ↦ (m, carried_out false)
  | some key ↦ elim (get_set key m) [
    | none ↦ (m, carried_out true)
    | some set ↦ (put_set key (delete_member user set) m, carried_out true)
  ]
]

-- `clearVotes` of the local backend
unfoldable pub local_clear : ℕ → VoteMap → VoteMap × Answer
local_clear game m = elim (key_for_game game) [
  | none ↦ (m, carried_out false)
  | some key ↦ (delete_set key m, carried_out true)
]

pub data Call : Type 0 where
  adds removes : ℕ → ℕ → Call
  clears : ℕ → Call

abbrev pub local_call : Call → VoteMap → VoteMap × Answer
local_call (adds game user) m = local_add game user m
local_call (removes game user) m = local_remove game user m
local_call (clears game) m = local_clear game m

-- The answers of a backend to calls one after the other.
abbrev pub answers : {S : Type 0} → (Call → S → S × Answer) → List Call → S → List Answer
answers call [] s = []
answers call (c ∷ cs) s = (call c s).1 ∷ answers call cs (call c s).0

-- What the handlers of the rooms count on: the same calls on one set of pairs of a game and a user.
abbrev pub vote_call : Call → List (ℕ × ℕ) → List (ℕ × ℕ) × Answer
vote_call (adds game user) votes =
    if game == 0
    then (votes, refused)
    else if user == 0
    then (votes, refused)
    else (add_vote game user votes, counted (vote_count game (add_vote game user votes)))
vote_call (removes game user) votes =
    if game == 0
    then (votes, carried_out false)
    else (remove_vote game user votes, carried_out true)
vote_call (clears game) votes =
    if game == 0 then (votes, carried_out false) else (clear_votes game votes, carried_out true)

-- `SOCKET_ADAPTER`
pub data Mode : Type 0 where
  local redis : Mode

-- The check of `initRematchVotes` on the text in lower case; `none` where it throws.
unfoldable pub mode_of : String → Option Mode
mode_of text =
    if str_eq text "local" then some local else if str_eq text "redis" then some redis else none

-- `initRematchVotes`: the first call chooses the backend, and later ones keep it. The Valkey backend
-- is refused without a client.
unfoldable pub init_rematch_votes : String → Bool → Option Mode → Option Mode
init_rematch_votes text has_store (some backend) = some backend
init_rematch_votes text has_store none = elim (mode_of text) [
  | none ↦ none
  | some local ↦ some local
  | some redis ↦ if has_store then some redis else none
]
