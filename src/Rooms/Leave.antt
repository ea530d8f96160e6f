-- ===== src/Rooms/Leave.antt =====
-- `leave_room` and `disconnect` of Chess-Backend/src/socket/gameSocket.js.
use end_to_end_kubernetes_ch.Base.{ℕ, not, Option, none, some, ◌&&◌, if◌then◌else◌, find, any}
use end_to_end_kubernetes_ch.Store.{MoveRow}
use end_to_end_kubernetes_ch.Store.Finalize.{Player}
use end_to_end_kubernetes_ch.Store.Persist.{ChessJs}
use end_to_end_kubernetes_ch.Rooms.{
  is_playing, is_finished_room, Env, Room, Task, done, ◌>>=◌, on, emit, lookup, forget, keep,
  room_task, is_at, is_attached, set_socket, to_socket, to_others, error, opponent_disconnected,
  left,
}
use end_to_end_kubernetes_ch.Rooms.Build.{refresh}
use end_to_end_kubernetes_ch.Rooms.Play.{in_cached_room, give_up}
use end_to_end_kubernetes_ch.Rooms.Rematch.{remove_vote}

module _ (chess : ChessJs) (env : Env) where
  -- `removeVote`, which never throws
  unfoldable pub withdraw_vote : ℕ → Option ℕ → Task chess (Unit {0})
  withdraw_vote game none s = (s, tt)
  withdraw_vote game (some user) s =
      (if env.votes_down then s else record s { votes = remove_vote game user s.votes }, tt)

  -- `player.id = null`, and the vote
  unfoldable pub unseat : ℕ → Player → Room chess → Task chess (Room chess)
  unseat socket player live = do
    let emptied : Room chess = record live { players = set_socket (is_at socket) none live.players }
    u ← keep emptied
    v ← withdraw_vote live.game_id player.user_id
    done emptied

  -- A finished room that nobody here uses goes.
  unfoldable pub drop_if_empty : Room chess → Task chess (Unit {0})
  drop_if_empty live =
      if is_finished_room live.status && not (any is_attached live.players)
      then forget live.id
      else done tt

  -- After the finalization
  unfoldable pub finish_leave : ℕ → Player → Room chess → Task chess (Unit {0})
  finish_leave socket player live = do
    emptied ← unseat socket player live
    u ← drop_if_empty emptied
    emit (to_socket socket left)

  -- The entry of a room that may have gone from the cache meanwhile
  unfoldable pub unseat_cached : ℕ → Room chess → Task chess (Unit {0})
  unseat_cached socket room = do
    cached ← lookup room.id
    on cached (done tt)
        (λ r. keep (record r { players = set_socket (is_at socket) none r.players }))

  -- The task of `leave_room` without the database's truth
  unfoldable pub leave_blind : ℕ → Room chess → Task chess (Unit {0})
  leave_blind socket room =
      on (find (is_at socket) room.players) (emit (to_socket socket (error "Not authorized")))
        (λ player. do u ← unseat_cached socket room; emit (to_socket socket left))

  -- The task of `disconnect`
  unfoldable pub disconnect_live : ℕ → Room chess → Task chess (Unit {0})
  disconnect_live socket live = on (find (is_at socket) live.players) (done tt) (λ player. do
    emptied ← unseat socket player live
    u ←
        (if is_playing live.status
          then emit (to_others socket live.id opponent_disconnected)
          else done tt)
    drop_if_empty emptied)

  -- `disconnect`: the first room that has the socket, in the order of `activeRooms`.
  unfoldable pub disconnect : ℕ → Task chess (Unit {0})
  disconnect socket s =
      on (find (λ (r : Room chess). any (is_at socket) r.players) s.rooms) (done tt)
        (λ room. room_task (done tt) (disconnect_live socket room)) s

module _ (chess : ChessJs) (ratings : ℕ → ℕ → ℕ → ℕ × ℕ) (env : Env) where
  -- The task of `leave_room` with the database's truth; a running game is resigned first.
  unfoldable pub leave_live : ℕ → Room chess → Task chess (Unit {0})
  leave_live socket live =
      on (find (is_at socket) live.players) (emit (to_socket socket (error "Not authorized")))
        (λ player.
          if is_playing live.status
          then (do
            closed ← give_up chess ratings env player live
            on closed (emit (to_socket socket (error "Unable to leave room")))
                (finish_leave chess env socket player))
          else finish_leave chess env socket player live)

  unfoldable pub leave_room : (MoveRow → chess.Request) → ℕ → Option ℕ → Task chess (Unit {0})
  leave_room stored socket id = in_cached_room id (emit (to_socket socket left)) (λ room.
      room_task (emit (to_socket socket (error "Unable to leave room"))) (do
        fresh ← refresh chess stored env room
        on fresh (leave_blind chess env socket room) (leave_live socket)))
