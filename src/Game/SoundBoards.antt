-- ===== src/Game/SoundBoards.antt =====
-- A sound position stays sound when `applyMove` of useChessGame.js makes a move that a click offers,
-- and when the player chooses the piece of a promotion.
use end_to_end_kubernetes_ch.Base.{
  ℕ, ◌≡◌, ◌∙◌, refl, inl, inr, Bool, true, false, Option, none, some, ◌==◌, ◌&&◌, ◌||◌, arith,
  dist_ℕ, Bool-cases,
}
use end_to_end_kubernetes_ch.Engine.{
  Color, white, black, Kind, pawn, king, piece, Board, Square, Castling, opponent, same_kind, cell,
  put,
}
use end_to_end_kubernetes_ch.Engine.Moves.{app_mv}
use end_to_end_kubernetes_ch.Engine.Check.{in_chk, ep_row}
use end_to_end_kubernetes_ch.Engine.InCheck.{opponent-opponent, same_color_refl}
use end_to_end_kubernetes_ch.Engine.Frame.{cell-put}
use end_to_end_kubernetes_ch.Engine.Kings.{piece-OnBoard}
use end_to_end_kubernetes_ch.Engine.Occupied.{replaced-in_chk}
use end_to_end_kubernetes_ch.Engine.PawnSteps.{double_row, two_rows-DoubleStep}
use end_to_end_kubernetes_ch.Game.Apply.{moved_board, next_ep, next_cast, must_choose}
use end_to_end_kubernetes_ch.Game.Legality.{get_legal_iff, is_safe-moved_board}
use end_to_end_kubernetes_ch.Game.MoveForms.{Form, castled, took_ep, plain}
use end_to_end_kubernetes_ch.Game.Soundness.{IsSound, Kings, put-Kings, AtHome}
use end_to_end_kubernetes_ch.Game.SoundMoves.{
  Offered, moved, target, at_square, ep_pawn, is_move, Form-Kings, moved_board-Form_of,
}
use end_to_end_kubernetes_ch.Game.SoundCorners.{moved-RooksHome}
use end_to_end_kubernetes_ch.Game.SoundPassed.{moved-Passed, pawn_of}

module _ {b : Board} {turn : Color} {ep : Option Square} {cast : Castling} {fr fc tr tc : ℕ}
    {t : Kind} (o : Offered b turn ep cast fr fc tr tc t) where
  moved_unchecked : in_chk (moved_board b turn t ep fr fc tr tc) turn ≡ false
  moved_unchecked =
      is_safe-moved_board b turn t fr fc ep (tr, tc)
        ((get_legal_iff b fr fc ep (some cast) turn t (tr, tc) o.there).0 o.legal).1

  -- The position after the move.
  pub moved-IsSound :
      IsSound
        (moved_board b turn t ep fr fc tr tc)
        (opponent turn)
        (next_ep t fr tr tc)
        (next_cast cast turn t fr fc tr tc)
  moved-IsSound =
      let form = moved_board-Form_of o in
      record {
        kings = Form-Kings o _ form;
        unchecked = rw opponent-opponent moved_unchecked;
        passed = moved-Passed o _ form;
        rooks = moved-RooksHome o _ form;
      }

  not_still : (fr == tr && fc == tc) ≡ false
  not_still = elim (Bool-cases (fr == tr && fc == tc)) [
    | inr m ↦ m
    | inl m ↦
        let p : fr ≡ tr = ground (arith, m) in
        let q : fc ≡ tc = ground (arith, m) in
        absurd (cc (rw (← p, ← q, o.there) at (target o).1, same_color_refl turn))
  ]

  arrived : cell (app_mv b fr fc tr tc) tr tc ≡ some (piece turn t)
  arrived =
      let self : (tr == tr && tc == tc) ≡ true = ground arith in
      rw (at_square o tr tc, not_still, self) o.there

  pawn_arrived :
      (nb : Board)
      → t ≡ pawn
      → Form b turn ep cast fr fc tr tc t nb
      → cell nb tr tc ≡ some (piece turn pawn)
  pawn_arrived nb p (plain q) = rw q (arrived ∙ rw p refl)
  pawn_arrived nb p (castled s g k rest path free r) = absurd (cc (p, k))
  pawn_arrived nb p (took_ep k q r) =
      let on = piece-OnBoard b (ep_row turn tr) tc o.sound.kings.shape (ep_pawn o q) in
      elim (Bool-cases (ep_row turn tr == tr && tc == tc)) [
        | inl m ↦
            let row : ep_row turn tr ≡ tr = ground (arith, m) in
            absurd (cc ((rw q at o.sound.passed).0, rw row at (ep_pawn o q)))
        | inr m ↦
            rw
              (
                r,
                cell-put (app_mv b fr fc tr tc) (ep_row turn tr) tc tr tc none (moved o).shape on.0
                    on.1,
                m,
              )
              (arrived ∙ rw p refl)
      ]

-- The piece that a pawn becomes.
module _ (b : Board) (turn : Color) (r c : ℕ) (k : Kind) (shape : Kings b)
    (e : cell b r c ≡ some (piece turn pawn)) where
  promoted_home :
      (right : Bool) (col : Color) (i j : ℕ)
      → AtHome b right col i j
      → AtHome (put b r c (some (piece turn k))) right col i j
  promoted_home right col i j (inl h) = inl h
  promoted_home right col i j (inr h) =
      let on = piece-OnBoard b r c shape.shape e in
      elim (Bool-cases (r == i && c == j)) [
        | inl m ↦
            let p : r ≡ i = ground (arith, m) in
            let q : c ≡ j = ground (arith, m) in absurd (cc (rw (p, q) at e, h))
        | inr m ↦ inr (rw (cell-put b r c i j (some (piece turn k)) shape.shape on.0 on.1, m) h)
      ]

  promoted-IsSound :
      (cast : Castling)
      → same_kind k king ≡ false
      → IsSound b (opponent turn) none cast
      → IsSound (put b r c (some (piece turn k))) (opponent turn) none cast
  promoted-IsSound cast nk s =
      let on = piece-OnBoard b r c shape.shape e in
      record {
        kings = put-Kings b r c (some (piece turn k)) shape on (rw e refl) nk;
        unchecked = rw opponent-opponent (
            replaced-in_chk b r c turn pawn k shape.shape on.0 on.1 e (shape.square turn)
              (shape.lone turn) refl nk (rw opponent-opponent at s.unchecked));
        passed = tt;
        rooks = record {
          white_king = promoted_home cast.wk white 7 7 s.rooks.white_king;
          white_queen = promoted_home cast.wq white 7 0 s.rooks.white_queen;
          black_king = promoted_home cast.bk black 0 7 s.rooks.black_king;
          black_queen = promoted_home cast.bq black 0 0 s.rooks.black_queen;
        };
      }

not_last_row : (col : Color) → (double_row col == 0 || double_row col == 7) ≡ false
not_last_row white = refl
not_last_row black = refl

module _ {b : Board} {turn : Color} {ep : Option Square} {cast : Castling} {fr fc tr tc : ℕ}
    {t : Kind} (o : Offered b turn ep cast fr fc tr tc t)
    (last : must_choose t tr none ≡ true) where
  no_double_step : next_ep t fr tr tc ≡ none
  no_double_step = elim (Bool-cases (same_kind t pawn && dist_ℕ tr fr == 2)) [
    | inr q ↦ rw q refl
    | inl q ↦
        let far : (dist_ℕ tr fr == 2) ≡ true = ground (arith, q) in
        let (_, goal, _) =
          two_rows-DoubleStep b turn fr fc (tr, tc) ep (some cast)
            (rw (pawn_of t _ q) at (is_move o)) far in
        let row : tr ≡ double_row turn = ground (arith, goal) in
        let rest : (tr == 0 || tr == 7) ≡ true = ground (arith, last) in
        absurd (cc (not_last_row turn, rw row at rest))
  ]

  -- The position after the choice of a promotion, which is not a king.
  pub chosen-IsSound :
      (k : Kind)
      → same_kind k king ≡ false
      → IsSound
          (put (moved_board b turn t ep fr fc tr tc) tr tc (some (piece turn k)))
          (opponent turn)
          (next_ep t fr tr tc)
          (next_cast cast turn t fr fc tr tc)
  chosen-IsSound k nk =
      let p : t ≡ pawn = pawn_of t _ last in
      let s = moved-IsSound o in
      rw no_double_step (
        promoted-IsSound _ turn tr tc k s.kings (pawn_arrived o _ p (moved_board-Form_of o)) _ nk
          (rw no_double_step at s))
