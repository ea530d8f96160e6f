-- ===== src/Game/Replayed.antt =====
-- The replay of the moves of a local game (`replayToSnapshots` of
-- Chess-Frontend/src/engine/chessEngine.js, `applyMove` and `doPromo` of useChessGame.js).
use end_to_end_kubernetes_ch.Base.{
  ℕ, ◌<◌, ◌≡◌, ◌≢◌, ◌∙◌, ap, sym, refl, inl, inr, true, false, Option, none, some, [], ◌∷◌, ◌++◌,
  arith, ◌&&◌, ◌==◌, ◌+ℤ◌, pos, dist_ℕ, Bool-cases,
}
use end_to_end_kubernetes_ch.Engine.{
  Color, white, black, Kind, pawn, piece, Cell, Board, Square, Castling, opponent, same_kind, cell,
}
use end_to_end_kubernetes_ch.Engine.Moves.{app_mv, is_empty, forward}
use end_to_end_kubernetes_ch.Engine.Check.{ep_row, is_ep_move}
use end_to_end_kubernetes_ch.Engine.PawnSteps.{two_rows-DoubleStep, single_step}
use end_to_end_kubernetes_ch.Game.{Entry, Game, sq}
use end_to_end_kubernetes_ch.Game.Apply.{
  moved_board, taken_piece, promote, must_choose, apply_move, apply_piece, finish,
}
use end_to_end_kubernetes_ch.Game.Handlers.{do_promo}
use end_to_end_kubernetes_ch.Game.MoveForms.{ep_square}
use end_to_end_kubernetes_ch.Game.SoundMoves.{Offered, from, target, kept, ep_pawn, is_move}
use end_to_end_kubernetes_ch.Game.SoundPassed.{pawn_of, not_ep}
use end_to_end_kubernetes_ch.Game.Replay.{
  EpShape, ep_move-pawn, square_to_rc, replay_step, square_to_rc-sq, replay_move-moved_board,
  replay_step-squares,
}

is_pawn_of : (t : Kind) → same_kind t pawn ≡ true → t ≡ pawn
is_pawn_of t e = pawn_of t true (rw e refl)

behind_ep : (col : Color) (r x : ℕ) → pos r +ℤ forward col ≡ pos x → ep_row col x ≡ r
unfolding ◌+ℤ◌
behind_ep white r x h = ground arith
behind_ep black r x h = ground arith

foe_not_own :
    (col : Color) (t u : Kind) {x : Cell}
    → x ≡ some (piece col t)
    → x ≡ some (piece (opponent col) u)
    → ⊥
foe_not_own white t u h k = cc
foe_not_own black t u h k = cc

module _ {b : Board} {turn : Color} {ep : Option Square} {cast : Castling} {fr fc tr tc : ℕ}
    {t : Kind} (o : Offered b turn ep cast fr fc tr tc t) where
  -- A pawn does not step straight onto the en passant square.
  ep_aside : t ≡ pawn → ep ≡ some (tr, tc) → fc ≢ tc
  ep_aside p q same =
      let moves = rw p at (is_move o) in
      elim (Bool-cases (dist_ℕ tr fr == 2)) [
        | inl far ↦
            let (start, goal, free) =
              two_rows-DoubleStep b turn fr fc (tr, tc) ep (some cast) moves far in
            not_ep o p start (ground (arith, goal)) (ground (arith, goal)) free q
        | inr near ↦
            let row =
              behind_ep turn fr tr (single_step b turn fr fc (tr, tc) ep (some cast) moves near) in
            foe_not_own turn t pawn o.there (rw (row, ← same) at (ep_pawn o q))
      ]

  -- The pawn that is taken is still there once the other one has moved.
  behind_kept :
      ep ≡ some (tr, tc)
      → fc ≢ tc
      → is_empty (cell (app_mv b fr fc tr tc) (ep_row turn tr) tc) ≡ false
  behind_kept q aside =
      let off : (fr == ep_row turn tr && fc == tc) ≡ false = ground (arith, aside) in
      elim (Bool-cases (tr == ep_row turn tr)) [
        | inr apart ↦ rw (kept o (ep_row turn tr) tc off (ground (arith, apart)), ep_pawn o q) refl
        | inl same ↦
            let row : ep_row turn tr ≡ tr = ground (arith, same) in
            absurd (cc (rw row at (ep_pawn o q), (rw q at o.sound.passed).0))
      ]

  pub ep_shape : EpShape b turn t ep fr fc tr tc
  ep_shape = elim (Bool-cases (is_ep_move t ep tr tc)) [
    | inr e ↦ inl e
    | inl e ↦
        let p = is_pawn_of t (ep_move-pawn t ep tr tc e) in
        let q = ep_square ep tr tc (rw p at e) in
        let aside = ep_aside p q in inr (e, aside, (rw q at o.sound.passed).0, behind_kept q aside)
  ]

-- The entry and the boards of a move, its promotion given or chosen.
pub replayed_entry :
    (b : Board) (col : Color) (t : Kind) (ep : Option Square) (fr fc tr tc : ℕ) (p : Option Kind)
    (m : Entry)
    → (fr < 8) × (fc < 8)
    → (tr < 8) × (tc < 8)
    → EpShape b col t ep fr fc tr tc
    → m.from ≡ sq fr fc
    → m.target ≡ sq tr tc
    → m.moved ≡ piece col t
    → m.captured ≡ taken_piece b col t ep fr fc tr tc
    → m.promotion ≡ p
    → replay_step b m ≡ some (promote (moved_board b col t ep fr fc tr tc) col tr tc p)
replayed_entry b col t ep fr fc tr tc p m (hfr, hfc) (htr, htc) h e1 e2 e3 e4 e5 =
    replay_step-squares b m col t (fr, fc) (tr, tc)
      (ap square_to_rc e1 ∙ square_to_rc-sq fr fc hfr hfc)
      (ap square_to_rc e2 ∙ square_to_rc-sq tr tc htr htc) e3
    ∙ rw (e4, e5) (ap some (replay_move-moved_board b col t ep fr fc tr tc p h))

-- A move that a click offers for a piece of the side to move in a sound position, none of whose
-- promotions is pending: once it is complete, its piece chosen at the modal if it is a promotion, it has
-- appended one entry to `moveLog`, and the replay of that entry leads from the board before the move to
-- the board after it, castling and en passant included.
pub replay_step-do_promo :
    (now later : ℕ) (g : Game) (fr fc tr tc : ℕ) (t k : Kind)
    → Offered g.board g.turn g.ep g.cast fr fc tr tc t
    → g.promo ≡ none
    → let done = (do_promo later k (apply_move now g fr fc tr tc none false).0).0 in
      (m : Entry) × (done.move_log ≡ g.move_log ++ m ∷ [])
      × (replay_step g.board m ≡ some done.board)
unfolding apply_move apply_piece finish do_promo
replay_step-do_promo now later g fr fc tr tc t k o q = elim (Bool-cases (must_choose t tr none)) [
  | inr e ↦
      rw (o.there, apply_move, e, q)
        (
          _,
          refl,
          replayed_entry g.board g.turn t g.ep fr fc tr tc none _ (from o) (target o).0 (ep_shape o)
              refl refl refl refl refl,
        )
  | inl e ↦
      rw (o.there, apply_move, e)
        (
          _,
          refl,
          replayed_entry g.board g.turn t g.ep fr fc tr tc (some k) _ (from o) (target o).0
              (ep_shape o) refl refl (ap (piece g.turn) (sym (pawn_of t _ e))) refl refl,
        )
]
