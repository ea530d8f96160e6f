-- ===== src/Rooms/Build.antt =====
-- How a room object is built from the database (`buildRoomFromSnapshot`, `hydrateRoom`, `getRoom`,
-- `refreshRoomFromDb` of Chess-Backend/src/socket/gameSocket.js).
use Prim.Native.String.{String}
use end_to_end_kubernetes_ch.Base.{
  ℕ, Bool, true, false, Option, none, some, List, [], ◌∷◌, ◌==◌, if◌then◌else◌, any, length,
  get_last?,
}
use end_to_end_kubernetes_ch.Engine.{white, black}
use end_to_end_kubernetes_ch.Store.{
  GameStatus, in_progress, finished, abandoned, GameRow, MoveRow, find_room_snapshot, abandon_one,
  is_finished,
}
use end_to_end_kubernetes_ch.Store.Finalize.{Player}
use end_to_end_kubernetes_ch.Store.Persist.{ChessJs}
use end_to_end_kubernetes_ch.Rooms.{
  RoomStatus, waiting, playing, over, Env, Room, Task, done, ◌>>=◌, on, lookup, forget, keep,
  is_attached,
}

-- The seats of a game's row; socket ids are attached afterwards.
abbrev pub seats_of : GameRow → List Player
seats_of g =
    record { socket = none; name = g.white_name; color = white; user_id = g.white_user }
    ∷ elim g.black_name [
      | none ↦ []
      | some name ↦
          record { socket = none; name = name; color = black; user_id = g.black_user } ∷ []
    ]

abbrev pub room_status : GameStatus → List Player → RoomStatus
room_status status players =
    if is_finished status then over else if length players == 2 then playing else waiting

-- `isMaterializable`, for the status of a row
abbrev pub is_materializable : GameStatus → Bool
is_materializable in_progress = true
is_materializable finished = true
is_materializable abandoned = false

-- `new Map(players.map(player => [player.userId, player.id]))`, where a later entry wins
abbrev pub same_user : Option ℕ → Option ℕ → Bool
same_user none none = true
same_user (some u) (some v) = u == v
same_user none (some v) = false
same_user (some u) none = false

abbrev pub local_socket : Option ℕ → List Player → Option ℕ → Option ℕ
local_socket user [] found = found
local_socket user (p ∷ ps) found =
    local_socket user ps (if same_user p.user_id user then p.socket else found)

-- `for (const player of rebuilt.players) player.id = localSockets.get(player.userId) || null`
abbrev pub reattach : List Player → List Player → List Player
reattach current [] = []
reattach current (p ∷ ps) =
    record p { socket = local_socket p.user_id current none } ∷ reattach current ps

module _ (chess : ChessJs) (stored : MoveRow → chess.Request) where
  -- The persisted moves played again; an illegal one throws. `stored` gives the columns of a row.
  abbrev pub replay : chess.Pos → List MoveRow → Option chess.Pos
  replay p [] = some p
  replay p (m ∷ ms) = elim (chess.play p (stored m)) [ none ↦ none | some r ↦ replay r.0 ms ]

  -- `game.board_fen || persistedMoves.at(-1)?.fen_after`
  abbrev pub checkpoint : GameRow → List MoveRow → Option String
  checkpoint g moves = elim g.board_fen [
    | some f ↦ some f
    | none ↦ elim (get_last? moves) [ none ↦ none | some m ↦ some m.fen_after ]
  ]

  abbrev pub position_of : GameRow → List MoveRow → Option chess.Pos
  position_of g moves = elim (checkpoint g moves) [
    | none ↦ replay chess.initial moves
    | some f ↦ chess.load f
  ]

  -- `buildRoomFromSnapshot`, but for the update that a corrupt game gets.
  unfoldable pub build_room : ℕ → GameRow → List MoveRow → Option (Room chess)
  build_room room g moves = elim (position_of g moves) [
    | none ↦ none
    | some p ↦ some (record {
      id = room;
      game_id = g.id;
      players = seats_of g;
      position = p;
      board = chess.fen p;
      turn = chess.turn p;
      status = room_status g.status (seats_of g);
      moves = moves;
      created_at = g.started_at;
      recovered = true;
      game_result = g.result;
      game_winner = g.winner_color;
    })
  ]

  unfoldable pub abandon_game : ℕ → Task chess (Unit {0})
  abandon_game id s = (record s { tables = abandon_one id s.tables }, tt)

  -- The snapshot query, which may fail.
  pub data Snapshot : Type 0 where
    failed dead : Snapshot
    row : GameRow → List MoveRow → Snapshot

  unfoldable pub read_snapshot : Env → ℕ → Task chess Snapshot
  read_snapshot env room s = (
    s,
    if env.read_fails then failed else elim (find_room_snapshot room s.tables) [
      | none ↦ dead
      | some r ↦ if is_materializable (r.0).status then row r.0 r.1 else dead
    ],
  )

module _ (chess : ChessJs) (stored : MoveRow → chess.Request) (env : Env) where
  -- `hydrateRoom`, after its query
  unfoldable pub hydrate_from : ℕ → Snapshot chess stored → Task chess (Option (Room chess))
  hydrate_from room failed = done none
  hydrate_from room dead = done none
  hydrate_from room (row g moves) =
      on (build_room chess stored room g moves) (do u ← abandon_game chess stored g.id; done none)
        (λ built. do u ← keep built; done (some built))

  -- `getRoom`, for a normalized id
  unfoldable pub get_room : ℕ → Task chess (Option (Room chess))
  get_room room = do
    cached ← lookup room
    on cached (do snapshot ← read_snapshot chess stored env room; hydrate_from room snapshot)
        (λ r. done (some r))

  -- `activeRooms.get(room.id) || room`
  abbrev pub live_entry : Room chess → Option (Room chess) → Room chess
  live_entry room none = room
  live_entry room (some r) = r

  -- `refreshRoomFromDb`, after its query: sockets come from the live entry, by user.
  unfoldable pub refresh_from :
      Room chess → Snapshot chess stored → Task chess (Option (Room chess))
  refresh_from room failed = done none
  refresh_from room dead = do u ← forget room.id; done none
  refresh_from room (row g moves) =
      on (build_room chess stored room.id g moves)
        (do u ← abandon_game chess stored g.id; v ← forget room.id; done none)
        (λ built. do
          cached ← lookup room.id
          let live : Room chess = record built {
            players = reattach (live_entry room cached).players built.players;
          }
          u ← keep live
          done (some live))

  -- `refreshRoomFromDb`
  unfoldable pub refresh : Room chess → Task chess (Option (Room chess))
  refresh room = do snapshot ← read_snapshot chess stored env room.id; refresh_from room snapshot

-- `evictIfSocketless`
unfoldable pub evict_if_socketless : {chess : ChessJs} → ℕ → Task chess (Unit {0})
evict_if_socketless id = do
  live ← lookup id
  on live (done tt) (λ r. if any is_attached r.players then done tt else forget id)
