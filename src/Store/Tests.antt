-- ===== src/Store/Tests.antt =====
-- A small database for Chess-Backend/src/models/Game.js and the transactions of
-- Chess-Backend/src/socket/gameSocket.js, and rules that accept every move, in the place of chess.js.
use Prim.Native.String.{String}
use end_to_end_kubernetes_ch.Base.{
  ℕ, ◌+◌, ◌-◌, ◌*◌, ◌≡◌, refl, true, false, Option, none, some, [], ◌∷◌, filter,
}
use end_to_end_kubernetes_ch.Engine.{white, black}
use end_to_end_kubernetes_ch.Store.{
  GameRow, UserRow, Tables, in_progress, draw, resign, is_in_progress, by_id, is_open, one_row,
  claim_black, join_black_by_id,
}
use end_to_end_kubernetes_ch.Store.Finalize.{
  Match, Settlement, finalize_game, settle_players, settle_users, record_both, record_player, grant,
  achievement_keys, unsettled,
}
use end_to_end_kubernetes_ch.Store.Persist.{ChessJs, load_or_initial, move_row, persist_move}
use end_to_end_kubernetes_ch.Store.Recorded.{
  Accepted, accepted, recorded, persist_move-commits, persist_move-resumes,
}
use end_to_end_kubernetes_ch.Store.Once.{finalize_game-once}
use end_to_end_kubernetes_ch.Store.Rated.{Rates, finalize_game-Rates}
use end_to_end_kubernetes_ch.Store.Seats.{claim_black-once}

abbrev pub game_row : GameRow
game_row = record {
  id = 7;
  room_id = some 3;
  white_user = some 1;
  white_name = "ann";
  black_user = none;
  black_name = none;
  multiplayer = true;
  status = in_progress;
  result = none;
  winner_color = none;
  board_fen = some "start";
  started_at = 0;
}

abbrev pub tables : Tables
tables = record {
  games = game_row ∷ [];
  moves = [];
  users = record { id = 1; elo_rating = 1200 } ∷ record { id = 2; elo_rating = 1300 } ∷ [];
  scores = [];
  achievements = [];
  next_id = 8;
}

abbrev pub ann_and_ben : Match
ann_and_ben = record {
  game_id = 7;
  players =
      record { socket = some 0; name = "ann"; color = white; user_id = some 1 }
      ∷ record { socket = some 1; name = "ben"; color = black; user_id = some 2 }
      ∷ [];
  total_moves = 12;
  created_at = 0;
}

-- Ten points from the loser to the winner.
abbrev pub ten_points : ℕ → ℕ → ℕ → ℕ × ℕ
ten_points w b score = ((w + 10 * score) - 10, (b + 10) - 10 * score)

abbrev pub any_move : ChessJs
any_move = record {
  Pos = String;
  Request = String;
  initial = "start";
  load = λ f. some f;
  fen = λ p. p;
  turn = λ p. white;
  play = λ p r. some (r, r);
  is_game_over = λ p. false;
  is_checkmate = λ p. false;
  load-fen = λ p. (p, refl, refl);
}

abbrev pub white_wins : Option (Tables × Settlement)
white_wins = finalize_game ten_points ann_and_ben resign (some white) 9000 tables

abbrev pub closed_tables : Tables
closed_tables = elim white_wins [ none ↦ tables | some r ↦ r.0 ]

abbrev pub first_answer : Settlement
first_answer = elim white_wins [ none ↦ unsettled | some r ↦ r.1 ]

white_wins_commits : white_wins ≡ some (closed_tables, first_answer)
unfolding finalize_game settle_players settle_users record_both record_player grant achievement_keys
white_wins_commits = refl

finalize_game-Rates_example :
    (wu : UserRow) × (bu : UserRow) × Rates ten_points (some white) 1 2 wu bu tables closed_tables
unfolding finalize_game settle_players settle_users record_both record_player grant achievement_keys
finalize_game-Rates_example =
    finalize_game-Rates ten_points ann_and_ben resign (some white) 9000 1 2 tables refl
      white_wins_commits refl

-- A draw that is reported late.
finalize_game-once_example :
    finalize_game ten_points ann_and_ben draw none 9500 closed_tables
    ≡ some (closed_tables, unsettled)
finalize_game-once_example =
    finalize_game-once ten_points ten_points ann_and_ben ann_and_ben resign draw (some white) none
      9000 9500 tables refl white_wins_commits

abbrev pub played : Tables
played = recorded any_move 7 white "e4" tables "e4" "e4"

e4-Accepted : Accepted any_move 7 white "e4" tables "e4" "e4"
e4-Accepted = accepted game_row "start" refl refl refl refl refl

e4_commits :
    persist_move any_move 7 white "e4" tables
    ≡ some (played, some ("e4", move_row any_move 7 white "e4" "e4" tables))
e4_commits = persist_move-commits any_move 7 white "e4" tables "e4" "e4" e4-Accepted

persist_move-resumes_example :
    (g : GameRow) × (position : String) × (one_row (filter (by_id 7) played.games) ≡ some g)
    × (is_in_progress g.status ≡ true)
    × (load_or_initial any_move g.board_fen ≡ some position)
    × (position ≡ "e4")
    × ((move_row any_move 7 white "e4" "e4" tables).fen_after ≡ "e4")
persist_move-resumes_example = persist_move-resumes any_move 7 white "e4" tables e4_commits

abbrev pub ben_joins : Option (Tables × Option GameRow)
ben_joins = claim_black 7 (some 2) "ben" tables

abbrev pub full_tables : Tables
full_tables = elim ben_joins [ none ↦ tables | some r ↦ r.0 ]

abbrev pub full_row : GameRow
full_row = record game_row { black_user = some 2; black_name = some "ben" }

ben_sits : ben_joins ≡ some (full_tables, some full_row)
unfolding claim_black join_black_by_id
ben_sits = refl

claim_black-once_example :
    (full_row.black_name ≡ some "ben")
    × (full_row.black_user ≡ some 2)
    × ((g : GameRow) × (one_row (filter (by_id 7) tables.games) ≡ some g) × (is_open 7 g ≡ true))
    × (claim_black 7 (some 5) "eve" full_tables ≡ some (full_tables, none))
claim_black-once_example = claim_black-once 7 (some 2) (some 5) "ben" "eve" tables ben_sits
