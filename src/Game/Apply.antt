-- ===== src/Game/Apply.antt =====
-- `applyMove` of useChessGame.js, in the order of its statements: the board, the castling rights,
-- the capture, the en passant square, the notation; then `finish`.
use end_to_end_kubernetes_ch.Base.{
  ℕ, ◌+◌, ◌-◌, ◌/◌, Bool, true, false, not, Option, none, some, List, [], ◌∷◌, ◌++◌, ◌&&◌, ◌||◌,
  ◌==◌, if◌then◌else◌, length, dist_ℕ,
}
use end_to_end_kubernetes_ch.Engine.{
  Color, white, black, Kind, pawn, rook, king, piece, Cell, Board, Square, Castling, opponent,
  same_kind, cell, put,
}
use end_to_end_kubernetes_ch.Engine.Moves.{app_mv, castle_row, is_empty}
use end_to_end_kubernetes_ch.Engine.Check.{
  in_chk, has_any, move_rook, take_ep, is_ep_move, ep_row, is_castle,
}
use end_to_end_kubernetes_ch.Game.{
  Text, Status, check, checkmate, stalemate, Entry, Captured, Game, Sound, move_sound,
  capture_sound, check_sound, checkmate_sound, Effect, play_sound, move_committed, game_finished,
  sq, letter,
}

-- `nb`: the piece moved, the rook of a castling, the pawn taken en passant.
unfoldable pub moved_board : Board → Color → Kind → Option Square → ℕ → ℕ → ℕ → ℕ → Board
moved_board b col t ep fr fc tr tc =
    let nb = app_mv b fr fc tr tc in
    take_ep (if is_castle t fc tc then move_rook nb (castle_row col) tc else nb) col t ep tr tc

-- `nc[col + "K"] = false; nc[col + "Q"] = false`
abbrev pub lose_both : Color → Castling → Castling
lose_both white t = record t { wk = false; wq = false }
lose_both black t = record t { bk = false; bq = false }

-- The four `if`s on a corner, for the square that a rook leaves or that a move ends on.
abbrev pub lose_corner : ℕ → ℕ → Castling → Castling
lose_corner r c t = record {
  wk = t.wk && not (r == 7 && c == 7);
  wq = t.wq && not (r == 7 && c == 0);
  bk = t.bk && not (r == 0 && c == 7);
  bq = t.bq && not (r == 0 && c == 0);
}

-- `nc`
unfoldable pub next_cast : Castling → Color → Kind → ℕ → ℕ → ℕ → ℕ → Castling
next_cast t col k fr fc tr tc =
    let after_king = if same_kind k king then lose_both col t else t in
    let after_rook = if same_kind k rook then lose_corner fr fc after_king else after_king in
    lose_corner tr tc after_rook

-- `cp = cap0 || epCap`
unfoldable pub taken_piece : Board → Color → Kind → Option Square → ℕ → ℕ → ℕ → ℕ → Cell
taken_piece b col t ep fr fc tr tc = elim (cell b tr tc) [
  | none ↦ if is_ep_move t ep tr tc then cell (app_mv b fr fc tr tc) (ep_row col tr) tc else none
  | some p ↦ some p
]

-- `setCapt`
abbrev pub add_taken : Color → Cell → Captured → Captured
add_taken col none capt = capt
add_taken white (some p) capt = record capt { by_white = capt.by_white ++ p ∷ [] }
add_taken black (some p) capt = record capt { by_black = capt.by_black ++ p ∷ [] }

-- `nep`
abbrev pub next_ep : Kind → ℕ → ℕ → ℕ → Option Square
next_ep t fr tr tc =
    if same_kind t pawn && dist_ℕ tr fr == 2 then some ((fr + tr) / 2, tc) else none

abbrev pub is_capture : Cell → Bool
is_capture x = not (is_empty x)

-- `note`
unfoldable pub notation : Kind → Option Kind → Bool → ℕ → ℕ → ℕ → ℕ → Text
notation t (some k) taken fr fc tr tc = sq tr tc ++ b'=' ∷ letter k ∷ []
notation t none taken fr fc tr tc =
    if is_castle t fc tc
    then (if tc == 6 then b'O' ∷ b'-' ∷ b'O' ∷ [] else b'O' ∷ b'-' ∷ b'O' ∷ b'-' ∷ b'O' ∷ [])
    else if same_kind t pawn
    then (if taken then (b'a' + fc) ∷ b'x' ∷ [] else []) ++ sq tr tc
    else letter t ∷ (if taken then b'x' ∷ [] else []) ++ sq tr tc

-- `note.replace(/[+#]?$/, suf)`: a final `+` or `#` goes, and the suffix is added.
unfoldable pub with_suffix : Text → Text → Text
with_suffix [] suf = suf
with_suffix (c ∷ []) suf = if c == b'+' || c == b'#' then suf else c ∷ suf
with_suffix (c ∷ d ∷ rest) suf = c ∷ with_suffix (d ∷ rest) suf

-- `st`
unfoldable pub next_status : Board → Color → Option Square → Castling → Option Status
next_status nb nt nep nc =
    if has_any nb nt nep (some nc)
    then (if in_chk nb nt then some check else none)
    else (if in_chk nb nt then some checkmate else some stalemate)

abbrev pub suffix : Option Status → Text
suffix (some checkmate) = b'#' ∷ []
suffix (some check) = b'+' ∷ []
suffix _ = []

abbrev pub sound_of : Option Status → Cell → Sound
sound_of (some checkmate) x = checkmate_sound
sound_of (some check) x = check_sound
sound_of _ none = move_sound
sound_of _ (some p) = capture_sound

-- `Math.floor((Date.now() - (gameStart || Date.now())) / 1000)`
abbrev pub duration : ℕ → Option ℕ → ℕ
duration now none = 0
duration now (some start) = (now - start) / 1000

abbrev pub finished_call : ℕ → Option ℕ → Option Status → List Entry → List Effect
finished_call now start (some checkmate) log =
    game_finished (length log) (duration now start) true log ∷ []
finished_call now start (some stalemate) log =
    game_finished (length log) (duration now start) false log ∷ []
finished_call now start _ log = []

abbrev pub committed_call : Bool → Entry → Option Status → List Effect
committed_call true e st = []
committed_call false e st = move_committed e st ∷ []

-- `finish`
unfoldable pub finish :
    ℕ → Game → Board → Color → Option Square → Castling → Text → Entry → Bool → Game × List Effect
finish now g nb nt nep nc note entry silent =
    let st = next_status nb nt nep nc in
    let final_san = with_suffix note (suffix st) in
    let final_entry = record entry { san = final_san } in
    let log = g.move_log ++ final_entry ∷ [] in
    let after = record (g.position) {
      board = nb;
      turn = nt;
      ep = nep;
      cast = nc;
      status = st;
      hist = g.hist ++ final_san ∷ [];
      move_log = log;
      sel = none;
      moves = [];
    } in
    (
      record g { position = after },
      play_sound (sound_of st entry.captured) ∷ committed_call silent final_entry st
          ++ finished_call now g.game_start st log,
    )

-- A pawn on its last row whose new piece is not given.
abbrev pub must_choose : Kind → ℕ → Option Kind → Bool
must_choose t tr none = same_kind t pawn && (tr == 0 || tr == 7)
must_choose t tr (some k) = false

-- `nb[tr][tc] = col + opts.promotion`
abbrev pub promote : Board → Color → ℕ → ℕ → Option Kind → Board
promote nb col tr tc none = nb
promote nb col tr tc (some k) = put nb tr tc (some (piece col k))

-- `applyMove`, from `const col` on: the piece of colour `col` and kind `t` stands on `fr`, `fc`.
unfoldable pub apply_piece :
    ℕ → Game → Color → Kind → ℕ → ℕ → ℕ → ℕ → Option Kind → Bool → Game × List Effect
apply_piece now g col t fr fc tr tc promotion silent =
    let nb = moved_board g.board col t g.ep fr fc tr tc in
    let nc = next_cast g.cast col t fr fc tr tc in
    let cp = taken_piece g.board col t g.ep fr fc tr tc in
    let nep = next_ep t fr tr tc in
    let nt = opponent col in
    let noted = record (g.position) {
      capt = add_taken col cp g.capt;
      last_mv = some ((fr, fc), (tr, tc));
    } in
    let kept = record g { position = noted; past = g.position ∷ g.past } in
    if must_choose t tr promotion
    then (
      record kept {
        promo = some (record {
          origin = (fr, fc);
          goal = (tr, tc);
          col = col;
          nb = nb;
          nt = nt;
          nep = nep;
          nc = nc;
          taken = cp;
        });
      },
      [],
    )
    else finish now kept (promote nb col tr tc promotion) nt nep nc
        (notation t promotion (is_capture cp) fr fc tr tc)
        (record {
          color = col;
          from = sq fr fc;
          target = sq tr tc;
          moved = piece col t;
          captured = cp;
          promotion = promotion;
          san = [];
        })
        silent

-- `applyMove`
unfoldable pub apply_move : ℕ → Game → ℕ → ℕ → ℕ → ℕ → Option Kind → Bool → Game × List Effect
apply_move now g fr fc tr tc promotion silent = elim (cell g.board fr fc) [
  | none ↦ (g, [])
  | some p ↦ elim p [ piece col t ↦ apply_piece now g col t fr fc tr tc promotion silent ]
]
