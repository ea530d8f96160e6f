-- ===== src/Tournament/Start.antt =====
-- The start of a tournament: `shuffle` and `start` of Chess-Backend/src/models/Tournament.js.
-- `Math.floor(Math.random() * (i + 1))` is a number up to `i`: the remainder of a number that is drawn.
use end_to_end_kubernetes_ch.Base.{
  ℕ, zero, suc, ◌-◌, ◌%◌, Bool, not, Option, none, some, List, [], ◌∷◌, ◌++◌, map, ◌&&◌, ◌==◌, ltb,
  if◌then◌else◌, find, filter, length, get_elem?, set,
}
use end_to_end_kubernetes_ch.Store.{update_where, count_where, is_some}
use end_to_end_kubernetes_ch.Tournament.{
  TournamentRow, MatchRow, Cups, Answer, in_progress, pending, bye, not_found, not_creator,
  already_started, too_few, started, has_id, is_seat_of, is_open_phase, next_pow2, advance_round,
}

-- `[result[i], result[j]] = [result[j], result[i]]`, in range
abbrev pub swap {ℓ} : {A : Type ℓ} → ℕ → ℕ → List A → List A
swap i j xs = elim (get_elem? xs i) [
  | none ↦ xs
  | some a ↦ elim (get_elem? xs j) [ none ↦ xs | some b ↦ set (set xs i b) j a ]
]

-- `for (let i = …; i > 0; i--)`, from `i` on; `draws` has a number for every round.
abbrev pub shuffle_from {ℓ} : {A : Type ℓ} → (ℕ → ℕ) → ℕ → List A → List A
shuffle_from draws zero xs = xs
shuffle_from draws (suc i) xs = shuffle_from draws i (swap (suc i) (draws (suc i) % suc (suc i)) xs)

unfoldable pub shuffle {ℓ} : {A : Type ℓ} → (ℕ → ℕ) → List A → List A
shuffle draws xs = shuffle_from draws (length xs - 1) xs

-- `while (players.length < nextPow2(players.length)) players.push(null)`
unfoldable pub fill : ℕ → List (Option ℕ) → List (Option ℕ)
fill zero ps = ps
fill (suc fuel) ps =
    let rest = fill fuel (ps ++ none ∷ []) in
    if ltb (length ps) (next_pow2 (length ps)) then rest else ps

-- `!p1 || !p2 ? (p1?.id || p2?.id) : null`
abbrev pub bye_winner : Option ℕ → Option ℕ → Option ℕ
bye_winner none p = p
bye_winner (some u) none = some u
bye_winner (some u) (some v) = none

abbrev pub first_match : ℕ → ℕ → ℕ → Option ℕ → Option ℕ → MatchRow
first_match serial id place p1 p2 = record {
  id = serial;
  tournament_id = id;
  round = 1;
  place = place;
  player1_id = p1;
  player2_id = p2;
  winner_id = bye_winner p1 p2;
  status = if is_some (bye_winner p1 p2) then bye else pending;
}

-- The loop of `start` that lays out the first round.
unfoldable pub lay_out : ℕ → ℕ → List (Option ℕ) → Cups → Cups
lay_out id place [] db = db
lay_out id place (p ∷ []) db = record db {
  matches = db.matches ++ first_match db.next_id id place p none ∷ [];
  next_id = suc db.next_id;
}
lay_out id place (p ∷ q ∷ ps) db = lay_out id (suc place) ps (record db {
  matches = db.matches ++ first_match db.next_id id place p q ∷ [];
  next_id = suc db.next_id;
})

abbrev pub users_of : List (ℕ × ℕ) → List ℕ
users_of [] = []
users_of (s ∷ ss) = s.1 ∷ users_of ss

abbrev pub is_open_id : ℕ → TournamentRow → Bool
is_open_id id t = t.id == id && is_open_phase t.status

abbrev pub begin : TournamentRow → TournamentRow
begin t = record t { status = in_progress }

-- `start`
unfoldable pub start : (ℕ → ℕ) → ℕ → ℕ → Cups → Option (Cups × Answer)
start draws id requester db = elim (find (has_id id) db.tournaments) [
  | none ↦ some (db, not_found)
  | some t ↦
      if not (t.creator_id == requester)
      then some (db, not_creator)
      else if not (is_open_phase t.status)
      then some (db, already_started)
      else if ltb (length (filter (is_seat_of id) db.players)) 2
      then some (db, too_few)
      else let users = map some (shuffle draws (users_of (filter (is_seat_of id) db.players))) in
        let laid = lay_out id 0 (fill (next_pow2 (length users)) users) db in
        if not (count_where (is_open_id id) laid.tournaments == 1)
        then none
        else some (
          advance_round id 1
              (record laid { tournaments = update_where (is_open_id id) begin laid.tournaments }),
          started,
        )
]
