-- ===== src/Store/Persist.antt =====
-- `persistMoveAtomic` of Chess-Backend/src/socket/gameSocket.js: one move of a game in one
-- transaction. The rules are those of the library chess.js, an argument (`ChessJs`).
use Prim.Native.String.{String}
use end_to_end_kubernetes_ch.Base.{
  ℕ, suc, Bool, Option, none, some, List, [], ◌∷◌, ◌++◌, ◌==◌, ltb, if◌then◌else◌, filter, ◌≡◌,
}
use end_to_end_kubernetes_ch.Engine.{Color, same_color}
use end_to_end_kubernetes_ch.Store.{
  GameRow, MoveRow, Tables, Tx, is_in_progress, is_live, by_id, update_where, count_where, one_row,
}

-- The part of chess.js that the server calls: `new Chess(fen)`, which may throw, `chess.fen()`,
-- `chess.turn()`, `chess.move({ from, to, promotion })`, whose failure the code catches, with the
-- move's SAN, `isGameOver()` and `isCheckmate()`. A FEN that it printed it can load, and the position
-- loaded has that FEN.
pub record ChessJs : Type 1 where
  pub Pos : Type 0
  pub Request : Type 0
  pub initial : Pos
  pub load : String → Option Pos
  pub fen : Pos → String
  pub turn : Pos → Color
  pub play : Pos → Request → Option (Pos × String)
  pub is_game_over : Pos → Bool
  pub is_checkmate : Pos → Bool
  pub load-fen : (p : Pos) → (q : Pos) × (load (fen p) ≡ some q) × (fen q ≡ fen p)

module _ (chess : ChessJs) where
  open chess use {Pos, Request, initial, load, fen, turn, play}

  -- `new Chess(board_fen || undefined)`
  abbrev pub load_or_initial : Option String → Option Pos
  load_or_initial none = some initial
  load_or_initial (some f) = load f

-- `COALESCE(MAX(move_number),0)`
abbrev pub max_number : List MoveRow → ℕ
max_number [] = 0
max_number (m ∷ ms) = if ltb (max_number ms) m.number then m.number else max_number ms

abbrev pub moves_of : ℕ → List MoveRow → List MoveRow
moves_of game rows = filter (λ (m : MoveRow). m.game_id == game) rows

abbrev pub set_fen : String → GameRow → GameRow
set_fen f g = record g { board_fen = some f }

module _ (chess : ChessJs) where
  open chess use {Pos, Request, fen, turn, play}

  -- The value of the transaction: the new position and the inserted row, or `null`.
  abbrev pub Persisted : Type 0
  Persisted = Option (Pos × MoveRow)

  -- The row that the insert of a move returns.
  abbrev pub move_row : ℕ → Color → Pos → String → Tables → MoveRow
  move_row game col after san db = record {
    game_id = game;
    number = suc (max_number (moves_of game db.moves));
    player_color = col;
    san = san;
    fen_after = fen after;
  }

  -- From `const fen = chess.fen()` on; an update that does not meet one row throws. The insert of one row
  -- either throws or returns one, so that the guard `inserted.rowCount !== 1` does not fire and is left out.
  unfoldable pub write_move : ℕ → Color → Pos → String → Tx Persisted
  write_move game col after san db =
      let row = move_row game col after san db in
      if count_where (is_live game) db.games == 1
      then some (
        record db {
          games = update_where (is_live game) (set_fen (fen after)) db.games;
          moves = db.moves ++ row ∷ [];
        },
        some (after, row),
      )
      else none

  -- `persistMoveAtomic`, the body of its transaction
  unfoldable pub persist_move : ℕ → Color → Request → Tx Persisted
  persist_move game col request db = elim (one_row (filter (by_id game) db.games)) [
    | none ↦ none
    | some g ↦
        if is_in_progress g.status
        then elim (load_or_initial chess g.board_fen) [
          | none ↦ none
          | some p ↦
              if same_color (turn p) col
              then elim (play p request) [
                | none ↦ some (db, none)
                | some r ↦ write_move game col r.0 r.1 db
              ]
              else some (db, none)
        ]
        else none
  ]
