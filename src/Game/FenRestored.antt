-- ===== src/Game/FenRestored.antt =====
-- A position that `boardToFEN` writes against the one that `loadFEN` sets (chessEngine.js and
-- useChessGame.js).
use end_to_end_kubernetes_ch.Base.{ℕ, ◌≡◌, refl, Option, none, some, List, [], ◌∷◌, arith}
use end_to_end_kubernetes_ch.Engine.{Color, white, black, Board, Square, Castling, IsBoard}
use end_to_end_kubernetes_ch.Engine.InCheck.{OnBoard}
use end_to_end_kubernetes_ch.Game.{Text, Entry}
use end_to_end_kubernetes_ch.Game.Replay.{square_to_rc-sq}
use end_to_end_kubernetes_ch.Game.Fen.{print_row, print_placement}
use end_to_end_kubernetes_ch.Game.FenRoundTrip.{
  Lacks, Lacks-append, print_row-Lacks, split-append, parse_placement-print_placement,
}
use end_to_end_kubernetes_ch.Game.FenFields.{
  turn_text, castling_text, ep_text, board_to_fen, parse_turn, parse_castling, parse_ep,
  last_squares, restored, load_fields, load_fen,
}

print_placement-Lacks : (b : Board) → Lacks b' ' (print_placement b)
unfolding print_placement
print_placement-Lacks [] = refl
print_placement-Lacks (row ∷ []) = print_row-Lacks b' ' (omega arith) row 0
print_placement-Lacks (row ∷ next ∷ rows) =
    Lacks-append b' ' (print_row 0 row) (b'/' ∷ print_placement (next ∷ rows))
      (print_row-Lacks b' ' (omega arith) row 0) (print_placement-Lacks (next ∷ rows))

turn_text-Lacks : (c : Color) → Lacks b' ' (turn_text c)
turn_text-Lacks white = refl
turn_text-Lacks black = refl

parse_turn-turn_text : (c : Color) → parse_turn (turn_text c) ≡ some c
parse_turn-turn_text white = refl
parse_turn-turn_text black = refl

castling_text-Lacks : (t : Castling) → Lacks b' ' (castling_text t)
castling_text-Lacks t = ground arith

parse_castling-castling_text : (t : Castling) → parse_castling (castling_text t) ≡ t
parse_castling-castling_text t = ground arith

-- The en passant square, if there is one, is on the board.
abbrev pub EpOnBoard : Option Square → Type 0
EpOnBoard none = Unit
EpOnBoard (some e) = OnBoard e

ep_text-Lacks : (ep : Option Square) → Lacks b' ' (ep_text ep)
ep_text-Lacks none = refl
ep_text-Lacks (some e) = ground arith

parse_ep-ep_text : (ep : Option Square) → EpOnBoard ep → parse_ep (ep_text ep) ≡ some ep
parse_ep-ep_text none h = refl
parse_ep-ep_text (some e) h = rw (square_to_rc-sq e.0 e.1 h.0 h.1) refl

-- A position of eight by eight squares, with its en passant square on the board, is restored by
-- `loadFEN` from its FEN: the board, the side to move, the castling rights and the en passant square,
-- with the persisted moves, if the last of these is between squares of the board. Nothing is selected,
-- and there is nothing to undo.
pub load_fen-board_to_fen :
    (now : ℕ) (b : Board) (turn : Color) (cast : Castling) (ep : Option Square) (hist : List Text)
    (log : List Entry) (last : Option (Square × Square))
    → IsBoard b
    → EpOnBoard ep
    → last_squares log ≡ some last
    → load_fen now (board_to_fen b turn cast ep hist) log
      ≡ some (restored now b turn cast ep last log)
unfolding load_fen board_to_fen
load_fen-board_to_fen now b turn cast ep hist log last shape on known =
    rw
      (
        split-append b' ' (print_placement b) _ (print_placement-Lacks b),
        split-append b' ' (turn_text turn) _ (turn_text-Lacks turn),
        split-append b' ' (castling_text cast) _ (castling_text-Lacks cast),
        split-append b' ' (ep_text ep) _ (ep_text-Lacks ep),
        load_fields,
        parse_placement-print_placement b shape,
        parse_turn-turn_text turn,
        parse_ep-ep_text ep on,
        known,
        parse_castling-castling_text cast,
      )
      refl
