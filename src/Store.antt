-- ===== src/Store.antt =====
-- The database tables of the backend, as far as the game code touches them (Database/migrations),
-- and Chess-Backend/src/models/Game.js. A statement is a function on the tables; a transaction
-- (`runInTransaction`) that throws leaves them as they were. Room ids, user names and FENs are only
-- compared and stored, so numbers and texts stand for them.
pub mod Finalize
pub mod Persist
pub mod Rows
pub mod Recorded
pub mod Numbers
pub mod Seats
pub mod Grants
pub mod Settled
pub mod Once
pub mod Rated
pub mod Tests
use Prim.Native.String.{String}
use end_to_end_kubernetes_ch.Base.{
  ℕ, suc, ◌+◌, Bool, true, false, Option, none, some, List, [], ◌∷◌, ◌++◌, map, ◌&&◌, ◌==◌, leb,
  if◌then◌else◌, find, filter, length,
}
use end_to_end_kubernetes_ch.Engine.{Color, white, black}

-- `games.status`
pub data GameStatus : Type 0 where
  in_progress finished abandoned : GameStatus

-- `games.result`
pub data GameResult : Type 0 where
  checkmate draw resign process_failure : GameResult

-- A row of `games`.
pub record GameRow : Type 0 where
  pub id : ℕ
  pub room_id : Option ℕ
  pub white_user : Option ℕ
  pub white_name : String
  pub black_user : Option ℕ
  pub black_name : Option String
  pub multiplayer : Bool
  pub status : GameStatus
  pub result : Option GameResult
  pub winner_color : Option Color
  pub board_fen : Option String
  pub started_at : ℕ

-- A row of `moves`: `san` and the other texts of the canonical move are one field.
pub record MoveRow : Type 0 where
  pub game_id : ℕ
  pub number : ℕ
  pub player_color : Color
  pub san : String
  pub fen_after : String

-- A row of `users`, as far as games use it.
pub record UserRow : Type 0 where
  pub id : ℕ
  pub elo_rating : ℕ

-- A row of `scores`.
pub record ScoreRow : Type 0 where
  pub user_id : ℕ
  pub moves : ℕ
  pub duration_seconds : ℕ
  pub winner : Bool
  pub game_id : ℕ

pub data Achievement : Type 0 where
  first_game first_win wins_5 wins_10 wins_25 quick_win marathon : Achievement

pub record Tables : Type 0 where
  pub games : List GameRow
  pub moves : List MoveRow
  pub users : List UserRow
  pub scores : List ScoreRow
  pub achievements : List (ℕ × Achievement)
  pub next_id : ℕ

-- A transaction: `none` is an exception, after which everything is rolled back.
abbrev pub Tx : Type 0 → Type 0
Tx A = Tables → Option (Tables × A)

-- `runInTransaction`: the tables afterwards, and the value unless it threw.
unfoldable pub run_in_transaction : {A : Type 0} → Tx A → Tables → Tables × Option A
run_in_transaction tx db = elim (tx db) [ none ↦ (db, none) | some r ↦ (r.0, some r.1) ]

abbrev pub is_in_progress : GameStatus → Bool
is_in_progress in_progress = true
is_in_progress _ = false

abbrev pub is_finished : GameStatus → Bool
is_finished finished = true
is_finished _ = false

abbrev pub is_some : {A : Type 0} → Option A → Bool
is_some none = false
is_some (some a) = true

-- `WHERE id=$1 AND status='in_progress'`
abbrev pub is_live : ℕ → GameRow → Bool
is_live id g = g.id == id && is_in_progress g.status

-- `WHERE id=$1`
abbrev pub by_id : ℕ → GameRow → Bool
by_id id g = g.id == id

-- `UPDATE … SET f WHERE p`
abbrev pub update_where : {A : Type 0} → (A → Bool) → (A → A) → List A → List A
update_where p f [] = []
update_where p f (x ∷ xs) = (if p x then f x else x) ∷ update_where p f xs

-- The number of rows that a `WHERE` meets, which is the `rowCount` of an update.
abbrev pub count_where : {A : Type 0} → (A → Bool) → List A → ℕ
count_where p [] = 0
count_where p (x ∷ xs) = (if p x then 1 else 0) + count_where p xs

-- `requireOne` on the rows that a query returns.
abbrev pub one_row : {A : Type 0} → List A → Option A
one_row [] = none
one_row (x ∷ []) = some x
one_row (x ∷ y ∷ xs) = none

-- `Game.findById`
unfoldable pub find_by_id : ℕ → Tables → Option GameRow
find_by_id id db = find (by_id id) db.games

-- `room_id = $1`
abbrev pub has_room : ℕ → GameRow → Bool
has_room room g = elim g.room_id [ none ↦ false | some r ↦ r == room ]

-- `Game.findByRoomId`
unfoldable pub find_by_room_id : ℕ → Tables → Option GameRow
find_by_room_id room db = find (has_room room) db.games

-- `ORDER BY m.move_number`
abbrev pub insert_by_number : MoveRow → List MoveRow → List MoveRow
insert_by_number m [] = m ∷ []
insert_by_number m (x ∷ xs) =
    let rest = insert_by_number m xs in if leb m.number x.number then m ∷ x ∷ xs else x ∷ rest

abbrev pub by_number : List MoveRow → List MoveRow
by_number [] = []
by_number (m ∷ ms) = insert_by_number m (by_number ms)

-- `Game.findRoomSnapshot`: the multiplayer game of the room, with its moves by number.
unfoldable pub find_room_snapshot : ℕ → Tables → Option (GameRow × List MoveRow)
find_room_snapshot room db = elim (find (λ g. has_room room g && g.multiplayer) db.games) [
  | none ↦ none
  | some g ↦ some (g, by_number (filter (λ (m : MoveRow). m.game_id == g.id) db.moves))
]

-- `Game.create`: `room_id` is UNIQUE, and the insert of a second one throws.
unfoldable pub create : ℕ → Option ℕ → String → String → ℕ → Tx GameRow
create room user name fen now db = elim (find_by_room_id room db) [
  | some g ↦ none
  | none ↦
      let row : GameRow = record {
        id = db.next_id;
        room_id = some room;
        white_user = user;
        white_name = name;
        black_user = none;
        black_name = none;
        multiplayer = true;
        status = in_progress;
        result = none;
        winner_color = none;
        board_fen = some fen;
        started_at = now;
      } in
      some (record db { games = db.games ++ row ∷ []; next_id = suc db.next_id }, row)
]

abbrev pub seat_black : Option ℕ → String → GameRow → GameRow
seat_black user name g = record g { black_user = user; black_name = some name }

-- `WHERE id=$1 AND status='in_progress' AND black_username IS NULL`
abbrev pub is_open : ℕ → GameRow → Bool
is_open id g = is_live id g && (if is_some g.black_name then false else true)

-- `Game.joinBlackById`
unfoldable pub join_black_by_id : ℕ → Option ℕ → String → Tx GameRow
join_black_by_id id user name db = elim (one_row (filter (is_open id) db.games)) [
  | none ↦ none
  | some g ↦ some (
    record db { games = update_where (is_open id) (seat_black user name) db.games },
    seat_black user name g,
  )
]

-- `Game.claimBlack`: `null` (here `none` inside) if the game is over or the seat is taken.
unfoldable pub claim_black : ℕ → Option ℕ → String → Tx (Option GameRow)
claim_black id user name db = elim (one_row (filter (by_id id) db.games)) [
  | none ↦ none
  | some g ↦
      if is_open id g
      then elim (join_black_by_id id user name db) [ none ↦ none | some r ↦ some (r.0, some r.1) ]
      else some (db, none)
]

-- `Game.abandonMany`, for one game
abbrev pub abandon : GameRow → GameRow
abandon g = record g { status = abandoned; result = some process_failure }

unfoldable pub abandon_one : ℕ → Tables → Tables
abandon_one id db = record db { games = update_where (is_live id) abandon db.games }

abbrev pub finish_row : GameResult → Option Color → GameRow → GameRow
finish_row result winner g = record g {
  status = finished;
  result = some result;
  winner_color = winner;
}
