-- ===== src/Rooms/JoinKeeps.antt =====
-- `create_room` and `join_room` of Chess-Backend/src/socket/gameSocket.js, and the refreshing of a room,
-- keep every law of the transactions.
use Prim.Native.String.{String}
use end_to_end_kubernetes_ch.Base.{ℕ, Option}
use end_to_end_kubernetes_ch.Store.{MoveRow, create, claim_black}
use end_to_end_kubernetes_ch.Store.Persist.{ChessJs}
use end_to_end_kubernetes_ch.Rooms.{Env, Room, Task, commit}
use end_to_end_kubernetes_ch.Rooms.Build.{
  abandon_game, Snapshot, failed, dead, row, read_snapshot, hydrate_from, get_room, refresh_from,
  refresh, evict_if_socketless,
}
use end_to_end_kubernetes_ch.Rooms.Join.{
  create_room, welcome, refuse_join, take_seat, join_live, join_room,
}
use end_to_end_kubernetes_ch.Rooms.Play.{in_cached_room}
use end_to_end_kubernetes_ch.Rooms.Law.{
  TableLaw, Keeps, done-Keeps, bind-Keeps, on-Keeps, if-Keeps, emit-Keeps, lookup-Keeps,
  forget-Keeps, keep-Keeps, room_task-Keeps, commit-Keeps,
}

pub ruleset task_rules = (
  done-Keeps, bind-Keeps, on-Keeps, if-Keeps, emit-Keeps, lookup-Keeps, forget-Keeps, keep-Keeps,
  room_task-Keeps,
)

module _ {chess : ChessJs} (law : TableLaw chess) (stored : MoveRow → chess.Request)
    (env : Env) where
  open law use {Rel, same, abandons}

  abandon_game-Keeps : (id : ℕ) → Keeps law (abandon_game chess stored id)
  unfolding abandon_game
  abandon_game-Keeps id s = abandons id s.tables

  read_snapshot-Keeps : (id : ℕ) → Keeps law (read_snapshot chess stored env id)
  unfolding read_snapshot
  read_snapshot-Keeps id s = same s.tables

  refresh_from-Keeps :
      (room : Room chess) (snapshot : Snapshot chess stored)
      → Keeps law (refresh_from chess stored env room snapshot)
  unfolding refresh_from
  refresh_from-Keeps room failed = search (task_rules) depth 12
  refresh_from-Keeps room dead = search (task_rules) depth 12
  refresh_from-Keeps room (row g moves) = search (task_rules, abandon_game-Keeps) depth 12

  pub refresh-Keeps : (room : Room chess) → Keeps law (refresh chess stored env room)
  unfolding refresh
  refresh-Keeps room = search (task_rules, read_snapshot-Keeps, refresh_from-Keeps) depth 12

  hydrate_from-Keeps :
      (id : ℕ) (snapshot : Snapshot chess stored)
      → Keeps law (hydrate_from chess stored env id snapshot)
  unfolding hydrate_from
  hydrate_from-Keeps id failed = search (task_rules) depth 12
  hydrate_from-Keeps id dead = search (task_rules) depth 12
  hydrate_from-Keeps id (row g moves) = search (task_rules, abandon_game-Keeps) depth 12

  get_room-Keeps : (id : ℕ) → Keeps law (get_room chess stored env id)
  unfolding get_room
  get_room-Keeps id = search (task_rules, read_snapshot-Keeps, hydrate_from-Keeps) depth 12

  evict-Keeps : (id : ℕ) → Keeps law (evict_if_socketless id)
  unfolding evict_if_socketless
  evict-Keeps id = search (task_rules) depth 12

  refuse_join-Keeps :
      (socket id : ℕ) (reason : String) → Keeps law (refuse_join chess env socket id reason)
  unfolding refuse_join
  refuse_join-Keeps socket id reason = search (task_rules, evict-Keeps) depth 12

  welcome-Keeps : (socket : ℕ) (live : Room chess) → Keeps law (welcome chess env socket live)
  unfolding welcome
  welcome-Keeps socket live = search (task_rules) depth 12

  claim-Keeps :
      (id : ℕ) (user : Option ℕ) (name : String) → Keeps law (commit env (claim_black id user name))
  claim-Keeps id user name =
      commit-Keeps law env (claim_black id user name) (law.claims id user name)

  take_seat-Keeps :
      (socket user : ℕ) (name : String) (live : Room chess)
      → Keeps law (take_seat chess env socket user name live)
  unfolding take_seat
  take_seat-Keeps socket user name live =
      search (task_rules, refuse_join-Keeps, claim-Keeps, welcome-Keeps) depth 12

  join_live-Keeps :
      (socket user : ℕ) (name : String) (live : Room chess)
      → Keeps law (join_live chess env socket user name live)
  unfolding join_live
  join_live-Keeps socket user name live =
      search (task_rules, take_seat-Keeps, welcome-Keeps) depth 12

  pub join_room-Keeps :
      (socket user : ℕ) (name : String) (id : Option ℕ)
      → Keeps law (join_room chess env stored socket user name id)
  unfolding join_room
  join_room-Keeps socket user name id =
      search (task_rules, get_room-Keeps, refuse_join-Keeps, refresh-Keeps, join_live-Keeps) depth
        12

  create-Keeps :
      (id : ℕ) (user : Option ℕ) (name fen : String) (now : ℕ)
      → Keeps law (commit env (create id user name fen now))
  create-Keeps id user name fen now =
      commit-Keeps law env (create id user name fen now) (law.creates id user name fen now)

  pub create_room-Keeps :
      (socket user : ℕ) (name : String) (id : ℕ)
      → Keeps law (create_room chess env socket user name id)
  unfolding create_room
  create_room-Keeps socket user name id = search (task_rules, create-Keeps) depth 12

  pub in_cached_room-Keeps :
      (id : Option ℕ) (missing : Task chess (Unit {0})) (found : Room chess → Task chess (Unit {0}))
      → Keeps law missing
      → ((r : Room chess) → Keeps law (found r))
      → Keeps law (in_cached_room id missing found)
  unfolding in_cached_room
  in_cached_room-Keeps id missing found hm hf = search (task_rules) depth 12
