-- ===== src/Game/FenFields.antt =====
-- All fields of a FEN: `boardToFEN` and `parseUciMove` of Chess-Frontend/src/engine/chessEngine.js, and
-- `loadFEN` of useChessGame.js. A text is `none` where the source throws or reads outside the board.
use end_to_end_kubernetes_ch.Base.{
  ℕ, ◌+◌, ◌/◌, Bool, true, false, Option, none, some, List, [], ◌∷◌, ◌++◌, ◌==◌, if◌then◌else◌,
  ◌>>=◌, map, filter, any, get_last?, length, decimal,
}
use end_to_end_kubernetes_ch.Engine.{
  Color, white, black, Kind, queen, rook, bishop, knight, Board, Square, Castling,
}
use end_to_end_kubernetes_ch.Game.{Text, Entry, Game, sq}
use end_to_end_kubernetes_ch.Game.Replay.{square_to_rc}
use end_to_end_kubernetes_ch.Game.Fen.{print_placement, split, parse_placement}

abbrev pub turn_text : Color → Text
turn_text white = b'w' ∷ []
turn_text black = b'b' ∷ []

abbrev pub flag : Bool → ℕ → Text
flag true c = c ∷ []
flag false c = []

abbrev pub or_dash : Text → Text
or_dash [] = b'-' ∷ []
or_dash (c ∷ cs) = c ∷ cs

-- `castling`
abbrev pub castling_text : Castling → Text
castling_text t = or_dash (flag t.wk b'K' ++ (flag t.wq b'Q' ++ (flag t.bk b'k' ++ flag t.bq b'q')))

-- `epSquare`
abbrev pub ep_text : Option Square → Text
ep_text none = b'-' ∷ []
ep_text (some e) = sq e.0 e.1

-- `boardToFEN`
unfoldable pub board_to_fen : Board → Color → Castling → Option Square → List Text → Text
board_to_fen b turn cast ep hist =
    print_placement b
    ++ (b' '
        ∷ (turn_text turn
            ++ (b' '
                ∷ (castling_text cast
                    ++ (b' '
                        ∷ (ep_text ep ++ (b' ' ∷ b'0' ∷ b' ' ∷ decimal (length hist / 2 + 1))))))))

-- `setTurn(activeColor)`, for one of the two letters
abbrev pub parse_turn : Text → Option Color
parse_turn (c ∷ []) = if c == b'w' then some white else if c == b'b' then some black else none
parse_turn _ = none

abbrev pub includes : Text → ℕ → Bool
includes t c = any (λ d. d == c) t

abbrev pub parse_castling : Text → Castling
parse_castling t = record {
  wk = includes t b'K';
  wq = includes t b'Q';
  bk = includes t b'k';
  bq = includes t b'q';
}

-- `enPassant === "-" ? null : squareToRC(enPassant)`
abbrev pub parse_ep : Text → Option (Option Square)
parse_ep (c ∷ []) = if c == b'-' then some none else none
parse_ep t = square_to_rc t >>= (λ e. some (some e))

-- The squares of the last persisted move
abbrev pub last_squares : List Entry → Option (Option (Square × Square))
last_squares log = elim (get_last? log) [
  | none ↦ some none
  | some m ↦
      square_to_rc m.from
      >>= (λ origin. square_to_rc m.target >>= (λ goal. some (some (origin, goal))))
]

abbrev pub is_text : Text → Bool
is_text [] = false
is_text (c ∷ cs) = true

-- What `loadFEN` sets.
abbrev pub restored :
    ℕ → Board → Color → Castling → Option Square → Option (Square × Square) → List Entry → Game
restored now b turn cast ep last_mv log = record {
  position = record {
    board = b;
    turn = turn;
    sel = none;
    moves = [];
    ep = ep;
    cast = cast;
    last_mv = last_mv;
    status = none;
    capt = record { by_white = []; by_black = [] };
    hist = filter is_text (map (λ (m : Entry). m.san) log);
    move_log = log;
  };
  promo = none;
  game_start = some now;
  past = [];
}

abbrev pub load_fields : ℕ → List Entry → List Text → Option Game
load_fields now log (placement ∷ active ∷ castling ∷ ep ∷ rest) = do
  b ← parse_placement placement
  turn ← parse_turn active
  square ← parse_ep ep
  last_mv ← last_squares log
  some (restored now b turn (parse_castling castling) square last_mv log)
load_fields now log _ = none

-- `loadFEN`, at the time `now`
unfoldable pub load_fen : ℕ → Text → List Entry → Option Game
load_fen now fen log = load_fields now log (split b' ' fen)

-- `promoMap[uci[4]]`
abbrev pub promo_of : ℕ → Option Kind
promo_of c =
    if c == b'q'
    then some queen
    else if c == b'r'
    then some rook
    else if c == b'b'
    then some bishop
    else if c == b'n'
    then some knight
    else none

abbrev pub first_promo : Text → Option Kind
first_promo [] = none
first_promo (c ∷ cs) = promo_of c

-- `parseUciMove`: `from`, `to` and `promotion`
unfoldable pub parse_uci_move : Text → Option (Text × Text × Option Kind)
parse_uci_move (a ∷ b ∷ c ∷ d ∷ rest) = some (a ∷ b ∷ [], c ∷ d ∷ [], first_promo rest)
parse_uci_move _ = none
