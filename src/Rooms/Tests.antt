-- ===== src/Rooms/Tests.antt =====
-- Small histories for Chess-Backend/src/socket/gameSocket.js.
use Prim.Native.String.{String}
use end_to_end_kubernetes_ch.Base.{
  ◌≡◌, ◌↔◌, arith, ℕ, Option, List, refl, false, Option, none, some, List, [], ◌∷◌, get_elem?,
}
use end_to_end_kubernetes_ch.Engine.{white, black}
use end_to_end_kubernetes_ch.Store.{
  GameRow, MoveRow, Tables, finished, draw, create, join_black_by_id, find_by_room_id,
  find_room_snapshot,
}
use end_to_end_kubernetes_ch.Store.Finalize.{Player}
use end_to_end_kubernetes_ch.Store.Numbers.{IsNumbered}
use end_to_end_kubernetes_ch.Store.Tests.{game_row, tables, any_move, ten_points}
use end_to_end_kubernetes_ch.Rooms.{Env, Room, Server, playing}
use end_to_end_kubernetes_ch.Rooms.Rematch.{start_rematch, release_room, seat_both}
use end_to_end_kubernetes_ch.Rooms.Events.{
  Event, handle_all, creates, joins, moves, resigns, accepts, leaves, drops,
}
use end_to_end_kubernetes_ch.Rooms.History.{handle_all-Frozen}
use end_to_end_kubernetes_ch.Rooms.MoveNumbers.{handle_all-IsNumbered}
use end_to_end_kubernetes_ch.Rooms.RematchOnce.{start_rematch-once}
use end_to_end_kubernetes_ch.Shutdown.Phases.{completed, phase_room}
use end_to_end_kubernetes_ch.Shutdown.Tests.{stuck}
use end_to_end_kubernetes_ch.Rooms.Drain.{
  with_rooms, drain_room_operations, AllSettle, phase_room-AllSettle,
}
use end_to_end_kubernetes_ch.Rooms.Boot.{rebuild_active_rooms, live_room, cached_room}
use end_to_end_kubernetes_ch.Rooms.Rebuilt.{rebuild_active_rooms-eq}

abbrev pub calm : Env
calm = record {
  now = 10;
  read_fails = false;
  tx_fails = false;
  present = 1 ∷ 2 ∷ [];
  votes_down = false;
}

abbrev pub stored : MoveRow → String
stored m = m.san

abbrev pub drawn_row : GameRow
drawn_row = record game_row {
  black_user = some 2;
  black_name = some "ben";
  status = finished;
  result = some draw;
}

abbrev pub drawn_tables : Tables
drawn_tables = record tables { games = drawn_row ∷ [] }

abbrev pub server_of : Tables → Server any_move
server_of db = record { rooms = []; tables = db; votes = []; draining = false; sent = [] }

-- Both players come back, one asks for a rematch, the other leaves.
abbrev pub evening : List (Env × Event any_move)
evening =
    (calm, joins 100 1 "ann" (some 3))
    ∷ (calm, joins 200 2 "ben" (some 3))
    ∷ (calm, accepts 100 (some 3))
    ∷ (calm, leaves 200 (some 3))
    ∷ []

handle_all-Frozen_example :
    (g' : GameRow) × (get_elem?
        (handle_all any_move stored ten_points evening (server_of drawn_tables)).tables.games
        0
      ≡ some g')
    × (g' ≡ record drawn_row { room_id = g'.room_id })
handle_all-Frozen_example =
    handle_all-Frozen any_move stored ten_points evening (server_of drawn_tables) 0 drawn_row refl
      refl

-- A whole game: seats, two moves, a resignation.
abbrev pub short_game : List (Env × Event any_move)
short_game =
    (calm, creates 100 1 "ann" 9)
    ∷ (calm, joins 200 2 "ben" (some 9))
    ∷ (calm, moves 100 (some 9) "e4")
    ∷ (calm, moves 100 (some 9) "d4")
    ∷ (calm, resigns 200 (some 9))
    ∷ (calm, drops 100)
    ∷ []

handle_all-IsNumbered_example :
    IsNumbered (handle_all any_move stored ten_points short_game (server_of tables)).tables.moves
handle_all-IsNumbered_example =
    handle_all-IsNumbered any_move stored ten_points short_game (server_of tables) (λ game. tt)

abbrev pub ann : Player
ann = record { socket = some 100; name = "ann"; color = black; user_id = some 1 }

abbrev pub ben : Player
ben = record { socket = some 200; name = "ben"; color = white; user_id = some 2 }

abbrev pub rematch : Option (Tables × GameRow)
rematch = start_rematch 7 3 ben ann "start" 20 drawn_tables

abbrev pub rematch_tables : Tables
rematch_tables = elim rematch [ none ↦ tables | some r ↦ r.0 ]

abbrev pub rematch_row : GameRow
rematch_row = elim rematch [ none ↦ game_row | some r ↦ r.1 ]

rematch_commits : rematch ≡ some (rematch_tables, rematch_row)
unfolding start_rematch release_room seat_both create join_black_by_id find_by_room_id
rematch_commits = refl

start_rematch-once_example : start_rematch 7 3 ben ann "start" 25 rematch_tables ≡ none
start_rematch-once_example =
    start_rematch-once 7 7 3 ben ann ben ann "start" "start" 20 25 drawn_tables rematch_tables
      rematch_row rematch_commits

-- White is to move, and black tries.
abbrev pub table_room : Room any_move
table_room = record {
  id = 3;
  game_id = 7;
  players = ben ∷ ann ∷ [];
  position = "start";
  board = "start";
  turn = white;
  status = playing;
  moves = [];
  created_at = 0;
  recovered = false;
  game_result = none;
  game_winner = none;
}

-- When the operations of two rooms settle.
abbrev pub two_tails : List (Option ℕ)
two_tails = some 3 ∷ some 50 ∷ []

phase_room-AllSettle_example :
    ((phase_room (with_rooms two_tails stuck) 100).0 ≡ completed ↔ AllSettle 100 two_tails)
    × (AllSettle 100 two_tails
        → (drain_room_operations two_tails 100).value
          ≡ some (record { total = 2; drained = 2; timed_out = false }))
phase_room-AllSettle_example = phase_room-AllSettle 100 (omega arith) stuck two_tails

-- A server that starts again, whose room is as it was before a move.
abbrev pub stale_server : Server any_move
stale_server = record (server_of tables) { rooms = table_room ∷ [] }

rebuild_active_rooms-eq_example :
    cached_room 3 (rebuild_active_rooms any_move stored stale_server).0
    ≡ live_room any_move stored 3 (find_room_snapshot 3 tables)
rebuild_active_rooms-eq_example =
    rebuild_active_rooms-eq any_move stored 3 stale_server (omega arith)
