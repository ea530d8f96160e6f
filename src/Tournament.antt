-- ===== src/Tournament.antt =====
-- Chess-Backend/src/models/Tournament.js: knock-out tournaments. Each operation is one transaction
-- (`none` is an exception, after which all is rolled back); its value is `{ error }` or what was
-- done.
pub mod Start
pub mod Shuffled
pub mod Bracket
pub mod Seats
pub mod Results
pub mod Stuck
pub mod Tests
use end_to_end_kubernetes_ch.Base.{
  ℕ, zero, suc, ◌+◌, ◌*◌, ◌<◌, Bool, true, false, not, Option, none, some, List, [], ◌∷◌, ◌++◌, map,
  ◌&&◌, ◌||◌, ◌==◌, leb, ltb, if◌then◌else◌, find, filter, any, all, length,
}
use end_to_end_kubernetes_ch.Store.{update_where, count_where, is_some}

-- `tournaments.status`
pub data Phase : Type 0 where
  open_phase in_progress finished : Phase

abbrev pub is_open_phase : Phase → Bool
is_open_phase open_phase = true
is_open_phase _ = false

abbrev pub is_running : Phase → Bool
is_running in_progress = true
is_running _ = false

-- `tournament_matches.status`
pub data MatchStatus : Type 0 where
  pending decided bye : MatchStatus

abbrev pub is_pending : MatchStatus → Bool
is_pending pending = true
is_pending _ = false

pub record TournamentRow : Type 0 where
  pub id : ℕ
  pub creator_id : ℕ
  pub max_players : ℕ
  pub status : Phase
  pub winner_id : Option ℕ

pub record MatchRow : Type 0 where
  pub id : ℕ
  pub tournament_id : ℕ
  pub round : ℕ
  pub place : ℕ
  pub player1_id : Option ℕ
  pub player2_id : Option ℕ
  pub winner_id : Option ℕ
  pub status : MatchStatus

-- `tournament_players` as pairs of a tournament and a user, in the order of joining.
pub record Cups : Type 0 where
  pub tournaments : List TournamentRow
  pub players : List (ℕ × ℕ)
  pub matches : List MatchRow
  pub next_id : ℕ

-- The answers.
pub data Answer : Type 0 where
  created : ℕ → Answer
  not_found already_started full not_creator too_few : Answer
  match_not_found already_resolved not_a_player not_a_participant : Answer
  joined already_joined started reported : Answer

abbrev pub has_id : ℕ → TournamentRow → Bool
has_id id t = t.id == id

abbrev pub is_seat : ℕ → ℕ → ℕ × ℕ → Bool
is_seat id user s = s.0 == id && s.1 == user

abbrev pub is_seat_of : ℕ → ℕ × ℕ → Bool
is_seat_of id s = s.0 == id

-- `create`
unfoldable pub create : ℕ → ℕ → Cups → Cups × Answer
create creator max_players db = (
  record db {
    tournaments =
        db.tournaments
        ++ record {
          id = db.next_id;
          creator_id = creator;
          max_players = max_players;
          status = open_phase;
          winner_id = none;
        }
          ∷ [];
    players = db.players ++ (db.next_id, creator) ∷ [];
    next_id = suc db.next_id;
  },
  created db.next_id,
)

-- `join`
unfoldable pub join : ℕ → ℕ → Cups → Cups × Answer
join id user db = elim (find (has_id id) db.tournaments) [
  | none ↦ (db, not_found)
  | some t ↦
      if not (is_open_phase t.status)
      then (db, already_started)
      else if any (is_seat id user) db.players
      then (db, already_joined)
      else if leb t.max_players (count_where (is_seat_of id) db.players)
      then (db, full)
      else (record db { players = db.players ++ (id, user) ∷ [] }, joined)
]

-- `nextPow2`, with a bound on the number of doublings.
unfoldable pub pow2_from : ℕ → ℕ → ℕ → ℕ
pow2_from zero p n = p
pow2_from (suc fuel) p n = let rest = pow2_from fuel (p * 2) n in if ltb p n then rest else p

unfoldable pub next_pow2 : ℕ → ℕ
next_pow2 n = pow2_from n 1 n

abbrev pub in_round : ℕ → ℕ → MatchRow → Bool
in_round id round m = m.tournament_id == id && m.round == round

-- `INSERT … ON CONFLICT (tournament_id,round,position) DO NOTHING`
abbrev pub has_place : ℕ → ℕ → ℕ → MatchRow → Bool
has_place id round place m = in_round id round m && m.place == place

unfoldable pub insert_match : ℕ → ℕ → ℕ → Option ℕ → Option ℕ → Cups → Cups
insert_match id round place p1 p2 db =
    if any (has_place id round place) db.matches then db else record db {
      matches =
          db.matches
          ++ record {
            id = db.next_id;
            tournament_id = id;
            round = round;
            place = place;
            player1_id = p1;
            player2_id = p2;
            winner_id = none;
            status = pending;
          }
            ∷ [];
      next_id = suc db.next_id;
    }

-- The loop over the winners, two by two.
unfoldable pub pair_winners : ℕ → ℕ → ℕ → List (Option ℕ) → Cups → Cups
pair_winners id round place [] db = db
pair_winners id round place (w ∷ []) db = insert_match id round place w none db
pair_winners id round place (w ∷ v ∷ ws) db =
    pair_winners id round (suc place) ws (insert_match id round place w v db)

abbrev pub crown : Option ℕ → TournamentRow → TournamentRow
crown winner t = record t { status = finished; winner_id = winner }

abbrev pub is_running_id : ℕ → TournamentRow → Bool
is_running_id id t = t.id == id && is_running t.status

-- `advanceRound`; the matches are those of the round, in the order of their positions, in which they
-- were inserted. The last update meets the row that was locked before it.
unfoldable pub next_round : ℕ → ℕ → List MatchRow → Cups → Cups
next_round id round [] db = db
next_round id round (m ∷ []) db = record db {
  tournaments = update_where (is_running_id id) (crown m.winner_id) db.tournaments;
}
next_round id round (m ∷ n ∷ ms) db =
    pair_winners id (suc round) 0 (map (λ (x : MatchRow). x.winner_id) (m ∷ n ∷ ms)) db

unfoldable pub advance_round : ℕ → ℕ → Cups → Cups
advance_round id round db = elim (find (has_id id) db.tournaments) [
  | none ↦ db
  | some t ↦
      if not (is_running t.status)
      then db
      else if any (λ (m : MatchRow). is_pending m.status) (filter (in_round id round) db.matches)
      then db
      else next_round id round (filter (in_round id round) db.matches) db
]

abbrev pub same_id : ℕ → Option ℕ → Bool
same_id user none = false
same_id user (some u) = u == user

-- `players.includes(user)`
abbrev pub plays : ℕ → MatchRow → Bool
plays user m = same_id user m.player1_id || same_id user m.player2_id

abbrev pub has_match_id : ℕ → MatchRow → Bool
has_match_id id m = m.id == id

abbrev pub is_undecided : ℕ → MatchRow → Bool
is_undecided id m = m.id == id && is_pending m.status

abbrev pub decide : ℕ → MatchRow → MatchRow
decide winner m = record m { winner_id = some winner; status = decided }

-- `reportResult`
unfoldable pub report_result : ℕ → ℕ → ℕ → Cups → Option (Cups × Answer)
report_result id reporter winner db = elim (find (has_match_id id) db.matches) [
  | none ↦ some (db, match_not_found)
  | some m ↦
      if not (is_pending m.status)
      then some (db, already_resolved)
      else if not (plays winner m)
      then some (db, not_a_player)
      else if not (plays reporter m)
      then some (db, not_a_participant)
      else if not (count_where (is_undecided id) db.matches == 1)
      then none
      else some (
        advance_round m.tournament_id m.round
            (record db { matches = update_where (is_undecided id) (decide winner) db.matches }),
        reported,
      )
]
