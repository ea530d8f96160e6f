-- ===== src/Game/Replay.antt =====
-- The replay of a saved game (`squareToRC` and `replayToSnapshots` of
-- Chess-Frontend/src/engine/chessEngine.js) against the moves of useChessGame.js that it replays, and
-- `applyRemoteMove`. A text that names no square of the board is `none`: the source then reads outside
-- the board.
use end_to_end_kubernetes_ch.Base.{
  ℕ, ◌-◌, ◌<◌, ◌≡◌, ◌≢◌, refl, ◌⊎◌, inl, inr, Bool, true, false, not, Option, none, some, List, [],
  ◌∷◌, arith, ◌&&◌, ◌==◌, leb, if◌then◌else◌, Option-cases, ◌>>=◌,
}
use end_to_end_kubernetes_ch.Engine.{
  Color, Kind, pawn, piece, Cell, Board, Square, cell, put, same_kind, init_board,
}
use end_to_end_kubernetes_ch.Engine.Moves.{app_mv, castle_row, is_empty}
use end_to_end_kubernetes_ch.Engine.Check.{move_rook, is_castle, ep_row, is_ep_move, take_ep}
use end_to_end_kubernetes_ch.Game.{Text, Entry, Game, Effect, sq}
use end_to_end_kubernetes_ch.Game.Apply.{moved_board, taken_piece, is_capture, promote, apply_move}

-- `[8 - rank, FILES.indexOf(file)]`
unfoldable pub square_to_rc : Text → Option Square
square_to_rc (f ∷ r ∷ rest) =
    if leb b'a' f && leb f b'h' && leb b'1' r && leb r b'8'
    then some (8 - (r - b'0'), f - b'a')
    else none
square_to_rc (f ∷ []) = none
square_to_rc [] = none

-- Castling and en passant of a saved move
abbrev pub replay_castle : Board → Color → Kind → ℕ → ℕ → Board
replay_castle nb col t fc tc = if is_castle t fc tc then move_rook nb (castle_row col) tc else nb

abbrev pub replay_ep : Board → Bool → Color → ℕ → ℕ → Board
replay_ep nb takes col tr tc = if takes then put nb (ep_row col tr) tc none else nb

-- `type === "P" && fc !== tc && m.captured && wasEmpty`
abbrev pub looks_ep : Board → Kind → ℕ → ℕ → ℕ → Cell → Bool
looks_ep b t fc tr tc captured =
    same_kind t pawn && (not (fc == tc) && (is_capture captured && is_empty (cell b tr tc)))

-- The board after a saved move between two squares
unfoldable pub replay_move : Board → Color → Kind → Square → Square → Cell → Option Kind → Board
replay_move b col t (fr, fc) (tr, tc) captured promotion =
    promote
      (replay_ep (replay_castle (app_mv b fr fc tr tc) col t fc tc) (looks_ep b t fc tr tc captured)
        col tr tc)
      col tr tc promotion

-- The body of the loop of `replayToSnapshots`
unfoldable pub replay_step : Board → Entry → Option Board
replay_step b m = elim (square_to_rc m.from) [
  | none ↦ none
  | some origin ↦ elim (square_to_rc m.target) [
    | none ↦ none
    | some goal ↦ elim m.moved [
      | piece col t ↦ some (replay_move b col t origin goal m.captured m.promotion)
    ]
  ]
]

-- The boards after each of the moves, the one before them first.
unfoldable pub replay_from : Board → List Entry → Option (List Board)
replay_from b [] = some (b ∷ [])
replay_from b (m ∷ ms) = do nb ← replay_step b m; rest ← replay_from nb ms; some (b ∷ rest)

-- `replayToSnapshots`
unfoldable pub replay_to_snapshots : List Entry → Option (List Board)
replay_to_snapshots log = replay_from init_board log

-- `applyRemoteMove`
unfoldable pub apply_remote_move : ℕ → Game → Text → Text → Option Kind → Game × List Effect
apply_remote_move now g from target promotion = elim (square_to_rc from) [
  | none ↦ (g, [])
  | some origin ↦ elim (square_to_rc target) [
    | none ↦ (g, [])
    | some goal ↦ apply_move now g origin.0 origin.1 goal.0 goal.1 promotion true
  ]
]

-- The name of a square of the board is read back as the square.
pub square_to_rc-sq : (r c : ℕ) → r < 8 → c < 8 → square_to_rc (sq r c) ≡ some (r, c)
unfolding square_to_rc
square_to_rc-sq r c hr hc = ground arith

-- A move that is en passant goes diagonally to an empty square, beside a piece to take.
abbrev pub EpShape : Board → Color → Kind → Option Square → ℕ → ℕ → ℕ → ℕ → Type 0
EpShape b col t ep fr fc tr tc =
    (is_ep_move t ep tr tc ≡ false)
    ⊎ ((is_ep_move t ep tr tc ≡ true)
        × (fc ≢ tc)
        × (cell b tr tc ≡ none)
        × (is_empty (cell (app_mv b fr fc tr tc) (ep_row col tr) tc) ≡ false))

and_false : (a b : Bool) → (a && (b && false)) ≡ false
and_false true true = refl
and_false true false = refl
and_false false b = refl

pub ep_move-pawn :
    (t : Kind) (ep : Option Square) (tr tc : ℕ)
    → is_ep_move t ep tr tc ≡ true
    → same_kind t pawn ≡ true
ep_move-pawn t none tr tc e = cc
ep_move-pawn t (some s) tr tc e = ground (arith, e)

not_same : (m n : ℕ) → m ≢ n → (m == n) ≡ false
not_same m n ne = ground arith

-- The test of the replay finds the moves that were en passant.
looks_ep-is_ep_move :
    (b : Board) (col : Color) (t : Kind) (ep : Option Square) (fr fc tr tc : ℕ)
    → EpShape b col t ep fr fc tr tc
    → looks_ep b t fc tr tc (taken_piece b col t ep fr fc tr tc) ≡ is_ep_move t ep tr tc
unfolding taken_piece
looks_ep-is_ep_move b col t ep fr fc tr tc (inl e) = elim (Option-cases (cell b tr tc)) [
  | inl n ↦ rw (taken_piece, n, e) (and_false (same_kind t pawn) (not (fc == tc)))
  | inr (p, n) ↦ rw (taken_piece, n, e) (and_false (same_kind t pawn) (not (fc == tc)))
]
looks_ep-is_ep_move b col t ep fr fc tr tc (inr (e, ne, n, v)) =
    rw (taken_piece, n, e, ep_move-pawn t ep tr tc e, not_same fc tc ne, v) refl

pub replay_move-moved_board :
    (b : Board) (col : Color) (t : Kind) (ep : Option Square) (fr fc tr tc : ℕ) (p : Option Kind)
    → EpShape b col t ep fr fc tr tc
    → replay_move b col t (fr, fc) (tr, tc) (taken_piece b col t ep fr fc tr tc) p
      ≡ promote (moved_board b col t ep fr fc tr tc) col tr tc p
unfolding replay_move moved_board take_ep
replay_move-moved_board b col t ep fr fc tr tc p h =
    rw (looks_ep-is_ep_move b col t ep fr fc tr tc h) refl

pub replay_step-squares :
    (b : Board) (m : Entry) (col : Color) (t : Kind) (origin goal : Square)
    → square_to_rc m.from ≡ some origin
    → square_to_rc m.target ≡ some goal
    → m.moved ≡ piece col t
    → replay_step b m ≡ some (replay_move b col t origin goal m.captured m.promotion)
unfolding replay_step
replay_step-squares b m col t origin goal e f h = simp (replay_step, e, f, h)
