-- ===== src/Engine/Check.antt =====
-- `inChk`, `getLegal` and `hasAny` of chessEngine.js: check, and the moves that leave no king in it.
use end_to_end_kubernetes_ch.Base.{
  ℕ, Bool, true, false, not, Option, none, some, List, [], ◌∷◌, ◌++◌, map, ◌&&◌, ◌==◌,
  if◌then◌else◌, any, filter, dist_ℕ, ◌+◌, ◌-◌,
}
use end_to_end_kubernetes_ch.Engine.{
  Color, white, black, Kind, pawn, king, piece, Board, Square, Castling, opponent, is_color,
  is_king, same_kind, cell, put,
}
use end_to_end_kubernetes_ch.Engine.Moves.{raw_moves, app_mv, castle_row}

abbrev pub row_squares : ℕ → List Square
row_squares r = map (λ c. (r, c)) (0 ∷ 1 ∷ 2 ∷ 3 ∷ 4 ∷ 5 ∷ 6 ∷ 7 ∷ [])

abbrev pub squares_from : List ℕ → List Square
squares_from [] = []
squares_from (r ∷ rs) = row_squares r ++ squares_from rs

-- The squares in the order of `for (r …) for (c …)`.
unfoldable pub squares : List Square
squares = squares_from (0 ∷ 1 ∷ 2 ∷ 3 ∷ 4 ∷ 5 ∷ 6 ∷ 7 ∷ [])

-- The scan for the king: the last match stays.
unfoldable pub last_king : Board → Color → Option Square → List Square → Option Square
last_king b col found [] = found
last_king b col found (s ∷ rest) =
    last_king b col (if is_king col (cell b s.0 s.1) then some s else found) rest

abbrev pub same_square : Square → Square → Bool
same_square s t = s.0 == t.0 && s.1 == t.1

-- A piece of colour `opp` on `s` has a raw move to the king's square.
unfoldable pub hits : Board → Color → Square → Square → Bool
hits b opp k s =
    is_color opp (cell b s.0 s.1) && any (same_square k) (raw_moves b s.0 s.1 none none)

-- `inChk`
unfoldable pub in_chk : Board → Color → Bool
in_chk b col = elim (last_king b col none squares) [
  | none ↦ false
  | some k ↦ any (hits b (opponent col) k) squares
]

-- The rook's part of castling, written out three times in the source:
-- `if (tc === 6) { nb[row][5] = nb[row][7]; nb[row][7] = null; } else { … }`.
unfoldable pub move_rook : Board → ℕ → ℕ → Board
move_rook nb row tc =
    if tc == 6
    then put (put nb row 5 (cell nb row 7)) row 7 none
    else put (put nb row 3 (cell nb row 0)) row 0 none

-- The row behind the target, on which the pawn taken en passant stands.
abbrev pub ep_row : Color → ℕ → ℕ
ep_row white tr = tr + 1
ep_row black tr = tr - 1

abbrev pub is_ep_move : Kind → Option Square → ℕ → ℕ → Bool
is_ep_move t none tr tc = false
is_ep_move t (some e) tr tc = same_kind t pawn && (tr == e.0 && tc == e.1)

abbrev pub is_castle : Kind → ℕ → ℕ → Bool
is_castle t fc tc = same_kind t king && dist_ℕ tc fc == 2

-- `nb` of `getLegal`, once the pawn taken en passant is gone.
unfoldable pub take_ep : Board → Color → Kind → Option Square → ℕ → ℕ → Board
take_ep nb col t ep tr tc = if is_ep_move t ep tr tc then put nb (ep_row col tr) tc none else nb

-- The body of the filter in `getLegal`.
unfoldable pub is_safe : Board → Color → Kind → ℕ → ℕ → Option Square → Square → Bool
is_safe b col t r c ep (tr, tc) =
    let nb = take_ep (app_mv b r c tr tc) col t ep tr tc in
    let row = castle_row col in
    if is_castle t c tc
    then not (in_chk (app_mv b r c row (if tc == 6 then 5 else 3)) col)
      && not (in_chk (move_rook nb row tc) col)
    else not (in_chk nb col)

-- `getLegal`
unfoldable pub get_legal : Board → ℕ → ℕ → Option Square → Option Castling → List Square
get_legal b r c ep cast = elim (cell b r c) [
  | none ↦ []
  | some p ↦ elim p [ piece col t ↦ filter (is_safe b col t r c ep) (raw_moves b r c ep cast) ]
]

abbrev pub is_nonempty {ℓ} : {A : Type ℓ} → List A → Bool
is_nonempty [] = false
is_nonempty (x ∷ xs) = true

-- `hasAny`
unfoldable pub has_any : Board → Color → Option Square → Option Castling → Bool
has_any b col ep cast =
    any (λ s. is_color col (cell b s.0 s.1) && is_nonempty (get_legal b s.0 s.1 ep cast)) squares
