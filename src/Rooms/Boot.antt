-- ===== src/Rooms/Boot.antt =====
-- The rooms after a restart: `rebuildActiveRooms` of Chess-Backend/src/socket/gameSocket.js, which
-- Chess-Backend/src/server.js awaits before it listens, over `findRecoverable` of
-- Chess-Backend/src/models/Game.js. The rows of `games` stand in the order of their ids.
use end_to_end_kubernetes_ch.Base.{
  ℕ, Option, none, some, List, [], ◌∷◌, ◌&&◌, ◌==◌, if◌then◌else◌, filter, length,
}
use end_to_end_kubernetes_ch.Store.{GameRow, MoveRow, Tables, is_in_progress, by_number}
use end_to_end_kubernetes_ch.Store.Persist.{ChessJs}
use end_to_end_kubernetes_ch.Rooms.{Room, Server, Task, done, ◌>>=◌, on, lookup, keep}
use end_to_end_kubernetes_ch.Rooms.Build.{build_room, abandon_game}

-- `WHERE status='in_progress' AND game_mode='multiplayer' AND room_id IS NOT NULL`: the room's id.
abbrev pub recoverable_room : GameRow → Option ℕ
recoverable_room g = if is_in_progress g.status && g.multiplayer then g.room_id else none

-- `json_agg(m ORDER BY m.move_number)` over the joined moves
abbrev pub persisted_moves : List MoveRow → GameRow → List MoveRow
persisted_moves moves g = by_number (filter (λ (m : MoveRow). m.game_id == g.id) moves)

-- A result row of the query, with its room's id.
abbrev pub Recovered : Type 0
Recovered = ℕ × GameRow × List MoveRow

abbrev pub recoverable_of : List MoveRow → List GameRow → List Recovered
recoverable_of moves [] = []
recoverable_of moves (g ∷ gs) = elim (recoverable_room g) [
  | none ↦ recoverable_of moves gs
  | some room ↦ (room, g, persisted_moves moves g) ∷ recoverable_of moves gs
]

-- `Game.findRecoverable`
abbrev pub find_recoverable : Tables → List Recovered
find_recoverable db = recoverable_of db.moves db.games

module _ (chess : ChessJs) (stored : MoveRow → chess.Request) where
  -- The body of the loop of `rebuildActiveRooms`; a game that cannot be built is abandoned.
  unfoldable pub rebuild_room : Recovered → Task chess (Unit {0})
  rebuild_room x = on (build_room chess stored x.0 x.1 x.2) (abandon_game chess stored x.1.id) keep

  unfoldable pub rebuild_rooms : List Recovered → Task chess (Unit {0})
  rebuild_rooms [] = done tt
  rebuild_rooms (x ∷ xs) = do u ← rebuild_room x; rebuild_rooms xs

  -- `rebuildActiveRooms`, which returns `activeRooms.size`
  unfoldable pub rebuild_active_rooms : Task chess ℕ
  rebuild_active_rooms s =
      let r = rebuild_rooms (find_recoverable s.tables) (record s { rooms = [] }) in
      (r.0, length r.0.rooms)

  -- The room that the database has under an id, if its game is being played.
  abbrev pub live_room : ℕ → Option (GameRow × List MoveRow) → Option (Room chess)
  live_room room none = none
  live_room room (some x) =
      if is_in_progress (x.0).status then build_room chess stored room x.0 x.1 else none

-- The room that a server has cached under an id.
abbrev pub cached_room : {chess : ChessJs} → ℕ → Server chess → Option (Room chess)
cached_room id s = (lookup id s).1
