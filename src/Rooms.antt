-- ===== src/Rooms.antt =====
-- Chess-Backend/src/socket/gameSocket.js: the rooms of one server process over the database. A
-- handler is a `Task`: it changes the server's state (`activeRooms`, the tables, the rematch votes)
-- and sends messages. The tasks of a room run one after the other (`roomTask`), so a handler is one
-- step; what other processes do lies between steps. Socket ids and room ids are only compared.
pub mod Build
pub mod Join
pub mod Play
pub mod Rematch
pub mod Leave
pub mod Law
pub mod JoinKeeps
pub mod PlayKeeps
pub mod LeaveKeeps
pub mod Events
pub mod Frozen
pub mod History
pub mod MoveNumbers
pub mod RematchOnce
pub mod Refusals
pub mod Drain
pub mod Chat
pub mod CleanChat
pub mod Gate
pub mod Guarded
pub mod Admitted
pub mod Boot
pub mod RebuiltRoom
pub mod Snapshots
pub mod Rebuilt
pub mod Tests
pub mod SocketTests
use Prim.Native.String.{String}
use end_to_end_kubernetes_ch.Base.{
  ℕ, suc, ◌+◌, Bool, true, false, not, Option, none, some, List, [], ◌∷◌, ◌++◌, map, ◌&&◌, ◌||◌,
  ◌==◌, if◌then◌else◌, find, filter, any, all, length,
}
use end_to_end_kubernetes_ch.Engine.{Color, white, black, same_color}
use end_to_end_kubernetes_ch.Store.{GameResult, GameRow, MoveRow, Tables, Tx, run_in_transaction}
use end_to_end_kubernetes_ch.Store.Finalize.{Player, Settlement, EloChange}
use end_to_end_kubernetes_ch.Store.Persist.{ChessJs}

-- `room.status`
pub data RoomStatus : Type 0 where
  waiting playing over : RoomStatus

abbrev pub is_playing : RoomStatus → Bool
is_playing playing = true
is_playing _ = false

abbrev pub is_finished_room : RoomStatus → Bool
is_finished_room over = true
is_finished_room _ = false

abbrev pub is_waiting : RoomStatus → Bool
is_waiting waiting = true
is_waiting _ = false

-- What happens around one handler: the clock, whether the snapshot query and the transaction fail
-- for a reason outside, the users that the adapter reports present (none, if it fails), whether
-- the vote store is down.
pub record Env : Type 0 where
  pub now : ℕ
  pub read_fails : Bool
  pub tx_fails : Bool
  pub present : List ℕ
  pub votes_down : Bool

module _ (chess : ChessJs) where
  -- A room object.
  pub record Room : Type 0 where
    pub id : ℕ
    pub game_id : ℕ
    pub players : List Player
    pub position : chess.Pos
    pub board : String
    pub turn : Color
    pub status : RoomStatus
    pub moves : List MoveRow
    pub created_at : ℕ
    pub recovered : Bool
    pub game_result : Option GameResult
    pub game_winner : Option Color

  -- The messages; an `error` or acknowledgement with its text, a room's own data as the room.
  pub data Message : Type 0 where
    room_created : ℕ → Message
    error : String → Message
    game_start room_rejoined : Room → Message
    move_made : Room → Message
    game_ended : Option GameResult → Option String → ℕ → ℕ → Option EloChange → Message
    rematch_requested opponent_disconnected : Message
    left : Message
    -- The author's name and colour, the text as UTF-16 code units, the time.
    chat_message : String → Color → List ℕ → ℕ → Message

  -- To one socket, to a room, or to a room except one socket.
  pub data Emit : Type 0 where
    to_socket to_room : ℕ → Message → Emit
    to_others : ℕ → ℕ → Message → Emit

  -- `activeRooms`, in the order of insertion; the vote sets as pairs of a game and a user.
  pub record Server : Type 0 where
    pub rooms : List Room
    pub tables : Tables
    pub votes : List (ℕ × ℕ)
    pub draining : Bool
    pub sent : List Emit

  abbrev pub Task : Type 0 → Type 0
  Task A = Server → Server × A

-- A `Map`'s `set`: an entry keeps its place, and a new one comes last.
abbrev pub put_room : {chess : ChessJs} → Room chess → List (Room chess) → List (Room chess)
put_room room [] = room ∷ []
put_room room (r ∷ rs) = if r.id == room.id then room ∷ rs else r ∷ put_room room rs

module _ {chess : ChessJs} where
  unfoldable pub done : {A : Type 0} → A → Task chess A
  done a s = (s, a)

  infixl 5 ◌>>=◌
  unfoldable pub ◌>>=◌ : {A B : Type 0} → Task chess A → (A → Task chess B) → Task chess B
  (m >>= k) s = let r = m s in k r.1 r.0

  -- The two continuations of a value that may be missing.
  unfoldable pub on : {A B : Type 0} → Option A → Task chess B → (A → Task chess B) → Task chess B
  on none missing found = missing
  on (some a) missing found = found a

  unfoldable pub emit : Emit chess → Task chess (Unit {0})
  emit e s = (record s { sent = s.sent ++ e ∷ [] }, tt)

  -- `activeRooms.get`
  unfoldable pub lookup : ℕ → Task chess (Option (Room chess))
  lookup id s = (s, find (λ (r : Room chess). r.id == id) s.rooms)

  -- `activeRooms.delete`
  unfoldable pub forget : ℕ → Task chess (Unit {0})
  forget id s = (record s { rooms = filter (λ (r : Room chess). not (r.id == id)) s.rooms }, tt)

  -- `activeRooms.set`, and an assignment to a field of a cached room.
  unfoldable pub keep : Room chess → Task chess (Unit {0})
  keep room s = (record s { rooms = put_room room s.rooms }, tt)

  -- A transaction of `Game`; `none` is an exception.
  unfoldable pub commit : {A : Type 0} → Env → Tx A → Task chess (Option A)
  commit env tx s =
      if env.tx_fails
      then (s, none)
      else let r = run_in_transaction tx s.tables in (record s { tables = r.0 }, r.1)

  -- `roomTask`: refused while draining, which the caller's `catch` turns into its own answer.
  unfoldable pub room_task : {A : Type 0} → Task chess A → Task chess A → Task chess A
  room_task refused task s = if s.draining then refused s else task s

abbrev pub is_at : ℕ → Player → Bool
is_at socket p = elim p.socket [ none ↦ false | some s ↦ s == socket ]

abbrev pub is_attached : Player → Bool
is_attached p = elim p.socket [ none ↦ false | some s ↦ true ]

abbrev pub is_account : ℕ → Player → Bool
is_account user p = elim p.user_id [ none ↦ false | some u ↦ u == user ]

-- `present.has(player.userId)` for every player
abbrev pub all_present : Env → List Player → Bool
all_present env players =
    all (λ (p : Player). elim p.user_id [ none ↦ false | some u ↦ any (λ v. v == u) env.present ])
      players

abbrev pub name_of_color : Option Color → List Player → Option String
name_of_color none players = none
name_of_color (some c) players = elim (find (λ (p : Player). same_color p.color c) players) [
  | none ↦ none
  | some p ↦ some p.name
]

-- Attach or detach the first player that passes a test.
abbrev pub set_socket : (Player → Bool) → Option ℕ → List Player → List Player
set_socket p socket [] = []
set_socket p socket (x ∷ xs) =
    if p x then record x { socket = socket } ∷ xs else x ∷ set_socket p socket xs
