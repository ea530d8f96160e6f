-- ===== src/Game/SoundPassed.antt =====
-- The en passant square that `applyMove` of useChessGame.js sets.
use end_to_end_kubernetes_ch.Base.{
  ℕ, ◌+◌, ◌/◌, ◌≡◌, ◌∙◌, refl, inl, inr, Bool, true, false, Option, none, some, ◌==◌, ◌&&◌, arith,
  dist_ℕ, Bool-cases,
}
use end_to_end_kubernetes_ch.Engine.{
  Color, white, black, Kind, pawn, piece, Board, Square, Castling, opponent, same_kind, cell,
}
use end_to_end_kubernetes_ch.Engine.Moves.{app_mv, start_row, is_empty}
use end_to_end_kubernetes_ch.Engine.Check.{ep_row}
use end_to_end_kubernetes_ch.Engine.PawnSteps.{passed_row, double_row, two_rows-DoubleStep}
use end_to_end_kubernetes_ch.Game.Apply.{next_ep}
use end_to_end_kubernetes_ch.Game.MoveForms.{Form, castled, took_ep, plain}
use end_to_end_kubernetes_ch.Game.Soundness.{Passed}
use end_to_end_kubernetes_ch.Game.SoundMoves.{
  Offered, kept, at_square, ep_pawn, is_move, empty-none,
}

-- The rows of a double step.
double_rows :
    (col : Color)
    → ((start_row col + double_row col) / 2 ≡ passed_row col)
      × (ep_row (opponent col) (passed_row col) ≡ double_row col)
      × (ep_row col (double_row col) ≡ passed_row col)
      × ((start_row col == passed_row col) ≡ false)
      × ((double_row col == passed_row col) ≡ false)
      × ((start_row col == double_row col) ≡ false)
      × (opponent (opponent col) ≡ col)
double_rows white = (refl, refl, refl, refl, refl, refl, refl)
double_rows black = (refl, refl, refl, refl, refl, refl, refl)

off_row : (p q : Bool) → p ≡ false → (p && q) ≡ false
off_row true q h = cc
off_row false q h = refl

pub pawn_of : (t : Kind) (p : Bool) → (same_kind t pawn && p) ≡ true → t ≡ pawn
pawn_of pawn p h = refl
pawn_of _ p h = cc

module _ {b : Board} {turn : Color} {ep : Option Square} {cast : Castling} {fr fc tr tc : ℕ}
    {t : Kind} (o : Offered b turn ep cast fr fc tr tc t) where
  module _ (is_pawn : t ≡ pawn) (start : fr ≡ start_row turn) (goal : tr ≡ double_row turn)
      (column : tc ≡ fc) (free : is_empty (cell b (passed_row turn) fc) ≡ true) where
    pub not_ep : ep ≡ some (tr, tc) → ⊥
    not_ep q =
        let (_, _, behind, _, _, _, _) = double_rows turn in
        absurd (cc (free, rw (goal, behind, column) at (ep_pawn o q)))

    passed_empty : cell (app_mv b fr fc tr tc) (passed_row turn) tc ≡ none
    passed_empty =
        let (_, _, _, d1, d2, _, _) = double_rows turn in
        kept o (passed_row turn) tc (rw start (off_row _ (fc == tc) d1))
          (rw goal (off_row _ (tc == tc) d2))
        ∙ empty-none _ (rw column free)

    stepped_pawn : cell (app_mv b fr fc tr tc) (double_row turn) tc ≡ some (piece turn pawn)
    stepped_pawn =
        let (_, _, _, _, _, d3, _) = double_rows turn in
        let from : (fr == double_row turn && fc == tc) ≡ false =
          rw start (off_row _ (fc == tc) d3) in
        let here : (tr == double_row turn && tc == tc) ≡ true = ground (arith, goal) in
        rw (at_square o (double_row turn) tc, from, here, o.there, is_pawn) refl

    stepped-Passed :
        (nb : Board)
        → Form b turn ep cast fr fc tr tc t nb
        → Passed nb (opponent turn) (some ((fr + tr) / 2, tc))
    stepped-Passed nb (castled s g p rest path k r) = absurd (cc (is_pawn, p))
    stepped-Passed nb (took_ep p q r) = absurd (not_ep q)
    stepped-Passed nb (plain q) =
        let (middle, behind, _, _, _, _, opp) = double_rows turn in
        let row : (fr + tr) / 2 ≡ passed_row turn = rw (start, goal) middle in
        (rw (q, row) passed_empty, rw (q, row, behind, opp) stepped_pawn)

  -- The en passant square that a move sets is empty, with the pawn behind it.
  pub moved-Passed :
      (nb : Board)
      → Form b turn ep cast fr fc tr tc t nb
      → Passed nb (opponent turn) (next_ep t fr tr tc)
  moved-Passed nb form = elim (Bool-cases (same_kind t pawn && dist_ℕ tr fr == 2)) [
    | inr q ↦ rw q tt
    | inl q ↦
        let is_pawn = pawn_of t _ q in
        let far : (dist_ℕ tr fr == 2) ≡ true = ground (arith, q) in
        let (start, goal, free) =
          two_rows-DoubleStep b turn fr fc (tr, tc) ep (some cast) (rw is_pawn at (is_move o))
            far in
        rw q
          (stepped-Passed is_pawn start (ground (arith, goal)) (ground (arith, goal)) free nb form)
  ]
