-- ===== src/Rooms/Events.antt =====
-- Histories of a server process: the events of its sockets, one task after the other.
use Prim.Native.String.{String}
use end_to_end_kubernetes_ch.Base.{ℕ, Option, List, [], ◌∷◌}
use end_to_end_kubernetes_ch.Store.{MoveRow}
use end_to_end_kubernetes_ch.Store.Persist.{ChessJs}
use end_to_end_kubernetes_ch.Rooms.{Env, Server, Task}
use end_to_end_kubernetes_ch.Rooms.Join.{create_room, join_room}
use end_to_end_kubernetes_ch.Rooms.Play.{make_move, game_over, resign_game}
use end_to_end_kubernetes_ch.Rooms.Law.{TableLaw, Keeps}
use end_to_end_kubernetes_ch.Rooms.Rematch.{accept_rematch, request_rematch}
use end_to_end_kubernetes_ch.Rooms.Chat.{send_message}
use end_to_end_kubernetes_ch.Rooms.Leave.{disconnect, leave_room}
use end_to_end_kubernetes_ch.Rooms.JoinKeeps.{create_room-Keeps, join_room-Keeps}
use end_to_end_kubernetes_ch.Rooms.PlayKeeps.{make_move-Keeps, game_over-Keeps, resign_game-Keeps}
use end_to_end_kubernetes_ch.Rooms.LeaveKeeps.{
  request_rematch-Keeps, accept_rematch-Keeps, leave_room-Keeps, disconnect-Keeps,
  send_message-Keeps,
}

-- The events of `initSocket` that reach the database or the rooms, at a socket.
pub data Event (chess : ChessJs) : Type 0 where
  creates : ℕ → ℕ → String → ℕ → Event chess
  joins : ℕ → ℕ → String → Option ℕ → Event chess
  moves : ℕ → Option ℕ → chess.Request → Event chess
  claims_end resigns accepts requests leaves : ℕ → Option ℕ → Event chess
  says : ℕ → Option ℕ → List ℕ → Event chess
  drops : ℕ → Event chess

module _ (chess : ChessJs) (stored : MoveRow → chess.Request) (ratings : ℕ → ℕ → ℕ → ℕ × ℕ) where
  -- The handler that `socket.on` registers
  unfoldable pub handle : Env → Event chess → Task chess (Unit {0})
  handle env (creates socket user name id) = create_room chess env socket user name id
  handle env (joins socket user name id) = join_room chess env stored socket user name id
  handle env (moves socket id request) = make_move chess ratings env stored socket id request
  handle env (claims_end socket id) = game_over chess ratings env stored socket id
  handle env (resigns socket id) = resign_game chess ratings env stored socket id
  handle env (accepts socket id) = accept_rematch chess env stored socket id
  handle env (requests socket id) = request_rematch chess env socket id
  handle env (leaves socket id) = leave_room chess ratings env stored socket id
  handle env (says socket id text) = send_message chess env socket id text
  handle env (drops socket) = disconnect chess env socket

  -- The server after a history.
  unfoldable pub handle_all : List (Env × Event chess) → Server chess → Server chess
  handle_all [] s = s
  handle_all (e ∷ es) s = handle_all es (handle e.0 e.1 s).0

  handle-Keeps : (law : TableLaw chess) (env : Env) (e : Event chess) → Keeps law (handle env e)
  unfolding handle
  handle-Keeps law env (creates socket user name id) =
      create_room-Keeps law stored env socket user name id
  handle-Keeps law env (joins socket user name id) =
      join_room-Keeps law stored env socket user name id
  handle-Keeps law env (moves socket id request) =
      make_move-Keeps law ratings env stored socket id request
  handle-Keeps law env (claims_end socket id) = game_over-Keeps law ratings env stored socket id
  handle-Keeps law env (resigns socket id) = resign_game-Keeps law ratings env stored socket id
  handle-Keeps law env (accepts socket id) = accept_rematch-Keeps law env stored socket id
  handle-Keeps law env (requests socket id) = request_rematch-Keeps law env socket id
  handle-Keeps law env (leaves socket id) = leave_room-Keeps law env stored ratings socket id
  handle-Keeps law env (says socket id text) = send_message-Keeps law env socket id text
  handle-Keeps law env (drops socket) = disconnect-Keeps law env socket

  -- A law of the transactions holds over every history.
  pub handle_all-Keeps :
      (law : TableLaw chess) (es : List (Env × Event chess)) (s : Server chess)
      → law.Rel s.tables (handle_all es s).tables
  unfolding handle_all
  handle_all-Keeps law [] s = law.same s.tables
  handle_all-Keeps law (e ∷ es) s =
      law.next s.tables (handle e.0 e.1 s).0.tables (handle_all es (handle e.0 e.1 s).0).tables
        (handle-Keeps law e.0 e.1 s) (handle_all-Keeps law es (handle e.0 e.1 s).0)
