-- ===== src/Rooms/Join.antt =====
-- `create_room` and `join_room` of Chess-Backend/src/socket/gameSocket.js. A user is an id with a
-- name, at a socket; the room id of a join is normalized (a malformed one is `none`).
use Prim.Native.String.{String}
use end_to_end_kubernetes_ch.Base.{
  ℕ, ◌-◌, ◌/◌, Bool, false, not, Option, none, some, [], ◌∷◌, ◌++◌, ◌&&◌, ◌||◌, ◌==◌, leb,
  if◌then◌else◌, any, length,
}
use end_to_end_kubernetes_ch.Engine.{white, black}
use end_to_end_kubernetes_ch.Store.{MoveRow, create, claim_black}
use end_to_end_kubernetes_ch.Store.Finalize.{Player}
use end_to_end_kubernetes_ch.Store.Persist.{ChessJs}
use end_to_end_kubernetes_ch.Rooms.{
  waiting, playing, is_finished_room, is_waiting, Env, Room, Task, ◌>>=◌, on, emit, keep, commit,
  room_task, is_attached, is_account, all_present, name_of_color, set_socket, to_socket, to_room,
  room_created, error, game_start, room_rejoined, game_ended,
}
use end_to_end_kubernetes_ch.Rooms.Build.{get_room, refresh, evict_if_socketless}

-- The elapsed seconds of `duration`.
abbrev pub seconds_since : ℕ → ℕ → ℕ
seconds_since start now = (now - start) / 1000

module _ (chess : ChessJs) (env : Env) where
  -- `create_room`; `id` is what `generateRoomId` gave.
  unfoldable pub create_room : ℕ → ℕ → String → ℕ → Task chess (Unit {0})
  create_room socket user name id = do
    created ← commit env (create id (some user) name (chess.fen chess.initial) env.now)
    on created (emit (to_socket socket (error "Unable to create room"))) (λ g.
        on (elim g.board_fen [ none ↦ some chess.initial | some f ↦ chess.load f ])
          (emit (to_socket socket (error "Unable to create room")))
          (λ p. do
            u ← keep (record {
              id = id;
              game_id = g.id;
              players =
                  record { socket = some socket; name = name; color = white; user_id = some user }
                  ∷ [];
              position = p;
              board = chess.fen p;
              turn = white;
              status = waiting;
              moves = [];
              created_at = env.now;
              recovered = false;
              game_result = none;
              game_winner = none;
            })
            emit (to_socket socket (room_created id))))

  -- From `socket.join(live.id)` on.
  unfoldable pub welcome : ℕ → Room chess → Task chess (Unit {0})
  welcome socket live =
      if is_finished_room live.status
      then emit (
          to_socket socket (
            game_ended live.game_result (name_of_color live.game_winner live.players)
              (length live.moves) (seconds_since live.created_at env.now) none))
      else if length live.players == 2 && all_present env live.players
      then emit (to_room live.id (game_start live))
      else emit (to_socket socket (room_rejoined live))

  -- The `catch` of `join_room`
  unfoldable pub refuse_join : ℕ → ℕ → String → Task chess (Unit {0})
  refuse_join socket id reason = do
    u ← evict_if_socketless id
    emit (to_socket socket (error reason))

  -- A fresh join: the black seat.
  unfoldable pub take_seat : ℕ → ℕ → String → Room chess → Task chess (Unit {0})
  take_seat socket user name live =
      if any (is_account user) live.players
      then refuse_join socket live.id "Already joined"
      else if leb 2 (length live.players) || not (is_waiting live.status)
      then refuse_join socket live.id "Room is full"
      else do
        claimed ← commit env (claim_black live.game_id (some user) name)
        on claimed (refuse_join socket live.id "Room is full") (λ seat.
            on seat (refuse_join socket live.id "Room is full") (λ g. do
              let seated : Room chess = record live {
                players =
                    live.players
                    ++ record {
                      socket = some socket;
                      name = name;
                      color = black;
                      user_id = some user;
                    }
                      ∷ [];
                status = playing;
              }
              u ← keep seated
              welcome socket seated))

  -- The test that finds the seat of a reconnecting user
  abbrev pub is_vacant_of : ℕ → Player → Bool
  is_vacant_of user p = is_account user p && not (is_attached p)

  -- The task of `join_room`
  unfoldable pub join_live : ℕ → ℕ → String → Room chess → Task chess (Unit {0})
  join_live socket user name live =
      if any (is_vacant_of user) live.players
      then (do
        let seated : Room chess = record live {
          players = set_socket (is_vacant_of user) (some socket) live.players;
        }
        u ← keep seated
        welcome socket seated)
      else take_seat socket user name live

  unfoldable pub join_room :
      (MoveRow → chess.Request) → ℕ → ℕ → String → Option ℕ → Task chess (Unit {0})
  join_room stored socket user name id =
      on id (emit (to_socket socket (error "Room not found"))) (λ wanted. do
        found ← get_room chess stored env wanted
        on found (emit (to_socket socket (error "Room not found"))) (λ room.
            room_task (refuse_join socket room.id "Room is full") (do
              fresh ← refresh chess stored env room
              on fresh (emit (to_socket socket (error "Room not found")))
                  (join_live socket user name))))
