-- ===== src/Game/Legality.antt =====
-- The moves that a click offers against the board that `applyMove` makes of them, and the castling
-- moves among them.
use end_to_end_kubernetes_ch.Base.{
  ℕ, ◌≡◌, ◌↔◌, true, false, Option, none, some, arith, Has, filter-Has, Has-filter,
}
use end_to_end_kubernetes_ch.Engine.{
  Color, Kind, pawn, king, piece, Board, Square, Castling, cell, opponent,
}
use end_to_end_kubernetes_ch.Engine.Moves.{raw_moves}
use end_to_end_kubernetes_ch.Engine.Check.{in_chk, take_ep, is_safe, get_legal}
use end_to_end_kubernetes_ch.Engine.InCheck.{LoneKing, Attacked, in_chk-Attacked}
use end_to_end_kubernetes_ch.Game.Apply.{moved_board}

-- `getLegal` keeps the raw moves that pass its filter.
pub get_legal_iff :
    (b : Board) (r c : ℕ) (ep : Option Square) (cast : Option Castling) (col : Color) (t : Kind)
    (m : Square)
    → cell b r c ≡ some (piece col t)
    → Has m (get_legal b r c ep cast)
      ↔ (Has m (raw_moves b r c ep cast) × (is_safe b col t r c ep m ≡ true))
unfolding get_legal
get_legal_iff b r c ep cast col t m e =
    rw (e, get_legal)
      (
        filter-Has (is_safe b col t r c ep) m (raw_moves b r c ep cast),
        λ h. Has-filter (is_safe b col t r c ep) m (raw_moves b r c ep cast) h.0 h.1,
      )

-- The filter of `getLegal` looks at the very board that `applyMove` makes.
pub is_safe-moved_board :
    (b : Board) (col : Color) (t : Kind) (r c : ℕ) (ep : Option Square) (m : Square)
    → is_safe b col t r c ep m ≡ true
    → in_chk (moved_board b col t ep r c m.0 m.1) col ≡ false
unfolding is_safe moved_board take_ep
is_safe-moved_board b col t r c none (tr, tc) h = ground arith
is_safe-moved_board b col pawn r c (some e) (tr, tc) h = ground arith
is_safe-moved_board b col king r c (some e) (tr, tc) h = ground arith
is_safe-moved_board b col _ r c (some e) (tr, tc) h = ground arith

-- A move that a click offers for the piece on `r`, `c` is a raw move of it, and on the board that
-- `applyMove` makes of it (rook of a castling and pawn taken en passant included) no piece of the
-- other colour attacks the mover's king.
pub get_legal-not_Attacked :
    (b : Board) (r c : ℕ) (ep : Option Square) (cast : Option Castling) (col : Color) (t : Kind)
    (m k : Square)
    → cell b r c ≡ some (piece col t)
    → Has m (get_legal b r c ep cast)
    → LoneKing (moved_board b col t ep r c m.0 m.1) col k
    → Has m (raw_moves b r c ep cast)
      × ¬ Attacked (moved_board b col t ep r c m.0 m.1) (opponent col) k
get_legal-not_Attacked b r c ep cast col t m k e h lone =
    let (raw, safe) = (get_legal_iff b r c ep cast col t m e).0 h in
    let unchecked = is_safe-moved_board b col t r c ep m safe in
    let attacked = in_chk-Attacked (moved_board b col t ep r c m.0 m.1) col k lone in
    (raw, λ a. cc (unchecked, attacked.1 a))
