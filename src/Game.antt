-- ===== src/Game.antt =====
-- Chess-Frontend/src/hooks/useChessGame.js: the state of a local game. React's state variables are
-- the fields of a record, and a handler is a function from the state it was rendered with to the
-- next one and its calls of `playSound`, `onMoveCommitted` and `onGameFinished`, in their order.
-- Strings (`"e4"`, SAN) are lists of character codes. The clock is an argument (`now`, in ms).
pub mod Apply
pub mod Handlers
pub mod Legality
pub mod CastlingMoves
pub mod Undo
pub mod MoveForms
pub mod Soundness
pub mod SoundMoves
pub mod SoundCorners
pub mod SoundPassed
pub mod SoundBoards
pub mod SoundStart
pub mod SoundGame
pub mod Replay
pub mod Replayed
pub mod ReplayedGame
pub mod Fen
pub mod FenRoundTrip
pub mod FenFields
pub mod FenRestored
pub mod Tests
use end_to_end_kubernetes_ch.Base.{
  ℕ, ◌+◌, ◌-◌, Bool, true, false, not, Option, none, some, List, [], ◌∷◌, ◌++◌, ◌&&◌, ◌==◌,
  if◌then◌else◌,
}
use end_to_end_kubernetes_ch.Engine.{
  Color, white, black, Kind, pawn, knight, bishop, rook, queen, king, Piece, Cell, Board, Square,
  Castling, init_board,
}

abbrev pub Text : Type 0
Text = List ℕ

-- `null` is `none` of `Option Status`.
pub data Status : Type 0 where
  check checkmate stalemate timeout : Status

-- An entry of `moveLog`.
pub record Entry : Type 0 where
  pub color : Color
  pub from : Text
  pub target : Text
  pub moved : Piece
  pub captured : Cell
  pub promotion : Option Kind
  pub san : Text

-- `capt`, by the colour that captured
pub record Captured : Type 0 where
  pub by_white : List Piece
  pub by_black : List Piece

-- The fields of `snapshot()`.
pub record Position : Type 0 where
  pub board : Board
  pub turn : Color
  pub sel : Option Square
  pub moves : List Square
  pub ep : Option Square
  pub cast : Castling
  pub last_mv : Option (Square × Square)
  pub status : Option Status
  pub capt : Captured
  pub hist : List Text
  pub move_log : List Entry

-- `promo`: a pawn has reached the last row, and its piece is not chosen yet.
pub record Promo : Type 0 where
  pub origin : Square
  pub goal : Square
  pub col : Color
  pub nb : Board
  pub nt : Color
  pub nep : Option Square
  pub nc : Castling
  pub taken : Cell

-- `past` has the latest snapshot first.
pub record Game : Type 0 where
  pub position : Position
  pub open position use *
  pub promo : Option Promo
  pub game_start : Option ℕ
  pub past : List Position

pub data Sound : Type 0 where
  move_sound capture_sound check_sound checkmate_sound end_sound : Sound

pub data Effect : Type 0 where
  play_sound : Sound → Effect
  move_committed : Entry → Option Status → Effect
  -- `moveCount`, `duration`, `winner`, `moveHistory`
  game_finished : ℕ → ℕ → Bool → List Entry → Effect

abbrev pub all_rights : Castling
all_rights = record { wk = true; wq = true; bk = true; bq = true }

abbrev pub start_position : Position
start_position = record {
  board = init_board;
  turn = white;
  sel = none;
  moves = [];
  ep = none;
  cast = all_rights;
  last_mv = none;
  status = none;
  capt = record { by_white = []; by_black = [] };
  hist = [];
  move_log = [];
}

-- The initial `useState` values.
abbrev pub new_game : Game
new_game = record { position = start_position; promo = none; game_start = none; past = [] }

-- `reset`
unfoldable pub reset : ℕ → Game → Game
reset now g = record { position = start_position; promo = none; game_start = some now; past = [] }

-- `FILES[c] + (8 - r)`
abbrev pub sq : ℕ → ℕ → Text
sq r c = (b'a' + c) ∷ (b'0' + (8 - r)) ∷ []

abbrev pub letter : Kind → ℕ
letter pawn = b'P'
letter knight = b'N'
letter bishop = b'B'
letter rook = b'R'
letter queen = b'Q'
letter king = b'K'
