-- ===== src/Store/Finalize.antt =====
-- `finalizeGameAtomic` of Chess-Backend/src/socket/gameSocket.js: the end of a game in one
-- transaction. `ratings` is `computeNewRatings` of utils/elo.js, on floating point numbers.
use Prim.Native.String.{String}
use end_to_end_kubernetes_ch.Base.{
  ℕ, ◌-◌, ◌/◌, Bool, true, false, not, Option, none, some, List, [], ◌∷◌, ◌++◌, ◌&&◌, ◌||◌, ◌==◌,
  leb, if◌then◌else◌, find, filter, any, ◌>>=◌,
}
use end_to_end_kubernetes_ch.Engine.{Color, white, black, same_color}
use end_to_end_kubernetes_ch.Store.{
  GameResult, UserRow, ScoreRow, Achievement, first_game, first_win, wins_5, wins_10, wins_25,
  quick_win, marathon, Tables, Tx, is_live, update_where, count_where, one_row, finish_row,
}

-- A player of a room: `{ id, name, color, userId }`; `id` is the socket attached here, if any.
pub record Player : Type 0 where
  pub socket : Option ℕ
  pub name : String
  pub color : Color
  pub user_id : Option ℕ

-- What the transaction reads of the room.
pub record Match : Type 0 where
  pub game_id : ℕ
  pub players : List Player
  pub total_moves : ℕ
  pub created_at : ℕ

-- `whiteScore`, in halves: 2, 0 or 1
abbrev pub white_score : Option Color → ℕ
white_score (some white) = 2
white_score (some black) = 0
white_score none = 1

-- `eloChange`: old and new rating of both players.
pub record EloChange : Type 0 where
  pub white_old : ℕ
  pub white_new : ℕ
  pub black_old : ℕ
  pub black_new : ℕ

-- `{ settled, eloChange }`
pub record Settlement : Type 0 where
  pub settled : Bool
  pub elo_change : Option EloChange

abbrev pub user_of_color : Color → List Player → Option ℕ
user_of_color col players = elim (find (λ (p : Player). same_color p.color col) players) [
  | none ↦ none
  | some p ↦ p.user_id
]

abbrev pub is_user : ℕ → UserRow → Bool
is_user id u = u.id == id

abbrev pub set_elo : ℕ → UserRow → UserRow
set_elo elo u = record u { elo_rating = elo }

-- `player.color === winnerColor`
abbrev pub is_winner : Color → Option Color → Bool
is_winner col none = false
is_winner col (some w) = same_color col w

-- `SELECT COUNT(*) FROM scores WHERE user_id=$1 AND winner=true`
abbrev pub wins_of : ℕ → List ScoreRow → ℕ
wins_of user scores = count_where (λ (s : ScoreRow). s.user_id == user && s.winner) scores

abbrev pub when : {A : Type 0} → Bool → A → List A
when true a = a ∷ []
when false a = []

-- `keys`, for the user's number of wins after the new score
unfoldable pub achievement_keys : Bool → ℕ → ℕ → List Achievement
achievement_keys won wins total_moves =
    first_game
      ∷ (if won
          then when (leb 1 wins) first_win
            ++ when (leb 5 wins) wins_5
            ++ when (leb 10 wins) wins_10
            ++ when (leb 25 wins) wins_25
            ++ when (leb total_moves 15) quick_win
          else [])
    ++ when (leb 60 total_moves) marathon

abbrev pub achievement_code : Achievement → ℕ
achievement_code first_game = 0
achievement_code first_win = 1
achievement_code wins_5 = 2
achievement_code wins_10 = 3
achievement_code wins_25 = 4
achievement_code quick_win = 5
achievement_code marathon = 6

abbrev pub has_achievement : ℕ → Achievement → List (ℕ × Achievement) → Bool
has_achievement user key rows =
    any (λ (r : ℕ × Achievement). r.0 == user && achievement_code r.1 == achievement_code key) rows

-- `INSERT … ON CONFLICT (user_id,achievement_key) DO NOTHING`
unfoldable pub grant : ℕ → List Achievement → List (ℕ × Achievement) → List (ℕ × Achievement)
grant user [] rows = rows
grant user (k ∷ ks) rows =
    grant user ks (if has_achievement user k rows then rows else rows ++ (user, k) ∷ [])

abbrev pub has_score : ℕ → ℕ → List ScoreRow → Bool
has_score game user scores = any (λ (s : ScoreRow). s.game_id == game && s.user_id == user) scores

-- One round of the loop over both players: the score (a second one for the game throws), then the
-- achievements.
unfoldable pub record_player : Match → Option Color → ℕ → ℕ → Color → Tables → Option Tables
record_player m winner now user col db =
    if has_score m.game_id user db.scores
    then none
    else let won = is_winner col winner in
      let scores =
        db.scores
        ++ record {
          user_id = user;
          moves = m.total_moves;
          duration_seconds = (now - m.created_at) / 1000;
          winner = won;
          game_id = m.game_id;
        }
          ∷ [] in
      some (record db {
        scores = scores;
        achievements =
            grant user (achievement_keys won (wins_of user scores) m.total_moves) db.achievements;
      })

-- The loop over both players, white first
unfoldable pub record_both : Match → Option Color → ℕ → ℕ → ℕ → Tables → Option Tables
record_both m winner now w b db = do
  db₁ ← record_player m winner now w white db
  record_player m winner now b black db₁

-- `computeNewRatings`, of two rows
abbrev pub elo_change_of : (ℕ → ℕ → ℕ → ℕ × ℕ) → Option Color → UserRow → UserRow → EloChange
elo_change_of ratings winner wu bu =
    let new = ratings wu.elo_rating bu.elo_rating (white_score winner) in
    record {
      white_old = wu.elo_rating;
      white_new = new.0;
      black_old = bu.elo_rating;
      black_new = new.1;
    }

-- Both updates of `users`
abbrev pub rate_users : ℕ → ℕ → EloChange → List UserRow → List UserRow
rate_users w b e users =
    update_where (is_user b) (set_elo e.black_new)
      (update_where (is_user w) (set_elo e.white_new) users)

-- From the two rows of `users` on; an update that does not meet one row throws.
unfoldable pub settle_users : Match → Option Color → ℕ → ℕ → ℕ → EloChange → Tx Settlement
settle_users m winner now w b e db =
    if not (count_where (is_user w) db.users == 1) || not (count_where (is_user b) db.users == 1)
    then none
    else do
      db₂ ← record_both m winner now w b (record db { users = rate_users w b e db.users })
      some (db₂, record { settled = true; elo_change = some e })

-- Ratings, scores and achievements of the two players.
unfoldable pub settle_players :
    (ℕ → ℕ → ℕ → ℕ × ℕ) → Match → Option Color → ℕ → ℕ → ℕ → Tx Settlement
settle_players ratings m winner now w b db = if w == b then none else do
  wu ← one_row (filter (is_user w) db.users)
  bu ← one_row (filter (is_user b) db.users)
  settle_users m winner now w b (elo_change_of ratings winner wu bu) db

abbrev pub unsettled : Settlement
unsettled = record { settled = false; elo_change = none }

abbrev pub settled_unrated : Settlement
settled_unrated = record { settled = true; elo_change = none }

-- Both user ids, if both players have one.
abbrev pub both_users : Option ℕ → Option ℕ → Option (ℕ × ℕ)
both_users (some w) (some b) = some (w, b)
both_users none b = none
both_users (some w) none = none

-- `finalizeGameAtomic`, the body of its transaction
unfoldable pub finalize_game :
    (ℕ → ℕ → ℕ → ℕ × ℕ) → Match → GameResult → Option Color → ℕ → Tx Settlement
finalize_game ratings m result winner now db =
    let rows = count_where (is_live m.game_id) db.games in
    let closed = record db {
      games = update_where (is_live m.game_id) (finish_row result winner) db.games;
    } in
    if rows == 0
    then some (db, unsettled)
    else if not (rows == 1)
    then none
    else elim (both_users (user_of_color white m.players) (user_of_color black m.players)) [
      | none ↦ some (closed, settled_unrated)
      | some users ↦ settle_players ratings m winner now users.0 users.1 closed
    ]
