-- ===== src/Game/SoundStart.antt =====
-- The position in which every game of useChessGame.js starts.
use end_to_end_kubernetes_ch.Base.{
  ◌≡◌, refl, inl, inr, Bool, true, false, not, none, ◌&&◌, arith, any, any_of_Has, ◌+ℤ◌,
  Option-cases, Bool-cases,
}
use end_to_end_kubernetes_ch.Engine.{
  Color, white, black, Square, IsBoard, is_king, cell, init_board,
}
use end_to_end_kubernetes_ch.Engine.Moves.{
  raw_moves, piece_moves, sl, slide, hop, pawn_pushes, pawn_double, pawn_capture, castles,
}
use end_to_end_kubernetes_ch.Engine.Check.{squares, same_square, in_chk, last_king, hits}
use end_to_end_kubernetes_ch.Engine.InCheck.{LoneKing, OnBoard, squares-Has, same_square_iff}
use end_to_end_kubernetes_ch.Engine.Kings.{piece-OnBoard}
use end_to_end_kubernetes_ch.Game.{all_rights}
use end_to_end_kubernetes_ch.Game.Soundness.{IsSound}

abbrev home_square : Color → Square
home_square white = (7, 4)
home_square black = (0, 4)

start-IsBoard : IsBoard init_board
unfolding init_board
start-IsBoard = record {
  rows = refl;
  columns = (refl, (refl, (refl, (refl, (refl, (refl, (refl, (refl, tt))))))));
}

-- A king of `col` on another square than its first.
abbrev is_second : Color → Square → Bool
is_second col s = is_king col (cell init_board s.0 s.1) && not (same_square s (home_square col))

none_second : (col : Color) → any (is_second col) squares ≡ false
unfolding squares cell init_board
none_second white = refl
none_second black = refl

king-OnBoard : (col : Color) (s : Square) → is_king col (cell init_board s.0 s.1) ≡ true → OnBoard s
king-OnBoard col s h = elim (Option-cases (cell init_board s.0 s.1)) [
  | inl e ↦ absurd (cc (rw e at h))
  | inr (p, e) ↦ piece-OnBoard init_board s.0 s.1 start-IsBoard e
]

home-OnBoard : (col : Color) → OnBoard (home_square col)
home-OnBoard white = omega arith
home-OnBoard black = omega arith

at_home_square :
    (col : Color) → is_king col (cell init_board (home_square col).0 (home_square col).1) ≡ true
unfolding cell init_board
at_home_square white = refl
at_home_square black = refl

start-LoneKing : (col : Color) → LoneKing init_board col (home_square col)
start-LoneKing col = record {
  on_board = home-OnBoard col;
  is_there = at_home_square col;
  lone = λ s m. elim (Bool-cases (same_square s (home_square col))) [
    | inl e ↦ (same_square_iff s (home_square col)).0 e
    | inr e ↦ absurd (
        cc (
          none_second col,
          any_of_Has (is_second col) s squares (squares-Has s (king-OnBoard col s m))
              (rw (m, e) refl),
        ))
  ];
}

pub start-IsSound : IsSound init_board white none all_rights
unfolding in_chk last_king hits squares raw_moves piece_moves sl slide hop pawn_pushes pawn_double
    pawn_capture castles cell init_board ◌+ℤ◌
start-IsSound = record {
  kings = record { shape = start-IsBoard; square = home_square; lone = start-LoneKing };
  unchecked = refl;
  passed = tt;
  rooks = record {
    white_king = inr refl;
    white_queen = inr refl;
    black_king = inr refl;
    black_queen = inr refl;
  };
}
