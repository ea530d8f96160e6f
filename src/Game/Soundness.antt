-- ===== src/Game/Soundness.antt =====
-- What holds of every position of a local game (useChessGame.js): eight by eight squares, one king of
-- each colour, the side that has moved is not in check, behind the en passant square stands the pawn
-- that passed it, and a right to castle has its rook at home.
use end_to_end_kubernetes_ch.Base.{
  ℕ, ◌≡◌, refl, ◌⊎◌, inl, inr, Bool, true, false, Option, none, some, ◌&&◌, arith, if◌then◌else◌,
  Bool-cases,
}
use end_to_end_kubernetes_ch.Engine.{
  Color, white, black, Kind, pawn, rook, king, piece, Cell, Board, Square, Castling, IsBoard,
  same_color, same_kind, is_king, opponent, cell, put,
}
use end_to_end_kubernetes_ch.Engine.Moves.{app_mv}
use end_to_end_kubernetes_ch.Engine.Check.{in_chk, ep_row}
use end_to_end_kubernetes_ch.Engine.InCheck.{LoneKing, OnBoard}
use end_to_end_kubernetes_ch.Engine.Frame.{put-IsBoard}
use end_to_end_kubernetes_ch.Engine.Kings.{
  has_king, has_king-is_king, put-LoneKing, app_mv-IsBoard, app_mv-LoneKing, king_moved-LoneKing,
}

-- A board with one king of each colour.
pub record Kings (b : Board) : Type 0 where
  pub shape : IsBoard b
  pub square : Color → Square
  pub lone : (col : Color) → LoneKing b col (square col)

-- The en passant square is empty, and the pawn that passed it stands behind it.
abbrev pub Passed : Board → Color → Option Square → Type 0
Passed b turn none = Unit {0}
Passed b turn (some e) =
    (cell b e.0 e.1 ≡ none) × (cell b (ep_row turn e.0) e.1 ≡ some (piece (opponent turn) pawn))

-- A right, and the rook that it is about.
abbrev pub AtHome : Board → Bool → Color → ℕ → ℕ → Type 0
AtHome b right col r c = (right ≡ false) ⊎ (cell b r c ≡ some (piece col rook))

pub record RooksHome (b : Board) (t : Castling) : Type 0 where
  pub white_king : AtHome b t.wk white 7 7
  pub white_queen : AtHome b t.wq white 7 0
  pub black_king : AtHome b t.bk black 0 7
  pub black_queen : AtHome b t.bq black 0 0

pub record IsSound (b : Board) (turn : Color) (ep : Option Square) (cast : Castling) : Type 0 where
  pub kings : Kings b
  pub unchecked : in_chk b (opponent turn) ≡ false
  pub passed : Passed b turn ep
  pub rooks : RooksHome b cast

-- A write that neither brings a king nor takes one.
pub put-Kings :
    (b : Board) (r c : ℕ) (x : Cell)
    → Kings b
    → OnBoard (r, c)
    → has_king (cell b r c) ≡ false
    → has_king x ≡ false
    → Kings (put b r c x)
put-Kings b r c x k on over new = record {
  shape = put-IsBoard b r c x k.shape on.0;
  square = k.square;
  lone = λ col.
      put-LoneKing b r c x k.shape on.0 on.1 col (k.square col) (k.lone col)
        (has_king-is_king col (cell b r c) over) (has_king-is_king col x new);
}

other_king :
    (col other : Color) (t : Kind)
    → same_color col other ≡ false
    → is_king other (some (piece col t)) ≡ false
other_king white white t h = cc
other_king black black t h = cc
other_king white black t h = refl
other_king black white t h = refl

-- A move of any piece onto no king.
module _ (b : Board) (fr fc tr tc : ℕ) (k : Kings b) (from : OnBoard (fr, fc))
    (to : OnBoard (tr, tc)) (col : Color) (t : Kind) (e : cell b fr fc ≡ some (piece col t))
    (over : has_king (cell b tr tc) ≡ false) where
  moved_king : Color → Square
  moved_king other = if same_kind t king && same_color col other then (tr, tc) else k.square other

  moved_king-LoneKing : (other : Color) → LoneKing (app_mv b fr fc tr tc) other (moved_king other)
  unfolding moved_king
  moved_king-LoneKing other =
      let free = has_king-is_king other (cell b tr tc) over in
      elim (Bool-cases (is_king other (cell b fr fc))) [
        | inl m ↦
            let q : (same_kind t king && same_color col other) ≡ true = ground (arith, rw e at m) in
            rw (moved_king, q)
              (king_moved-LoneKing b fr fc tr tc k.shape from to other (k.square other)
                (k.lone other) m free)
        | inr m ↦
            let q : (same_kind t king && same_color col other) ≡ false =
              ground (arith, rw e at m) in
            rw (moved_king, q)
              (app_mv-LoneKing b fr fc tr tc k.shape from to other (k.square other) (k.lone other) m
                free)
      ]

  pub app_mv-Kings : Kings (app_mv b fr fc tr tc)
  app_mv-Kings = record {
    shape = app_mv-IsBoard b fr fc tr tc k.shape from to;
    square = moved_king;
    lone = moved_king-LoneKing;
  }
