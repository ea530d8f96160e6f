-- ===== src/Game/ReplayedGame.antt =====
-- The replay of the whole log of a local game (`replayToSnapshots` of
-- Chess-Frontend/src/engine/chessEngine.js, the handlers of useChessGame.js).
use end_to_end_kubernetes_ch.Base.{
  ℕ, suc, ◌≡◌, ◌∙◌, ap, sym, refl, inl, inr, Bool, true, false, Option, none, some, List, [], ◌∷◌,
  ◌++◌, ◌||◌, any, All, Has, Bool-cases, Option-cases, any-Has, length, get_last?,
}
use end_to_end_kubernetes_ch.Engine.{Kind, pawn, piece, Board, is_color, cell, put, init_board}
use end_to_end_kubernetes_ch.Engine.Check.{get_legal, same_square}
use end_to_end_kubernetes_ch.Engine.InCheck.{is_color_piece, same_square_iff}
use end_to_end_kubernetes_ch.Game.{Text, Entry, Position, Promo, Game, new_game, sq, reset}
use end_to_end_kubernetes_ch.Game.Apply.{must_choose, apply_move, apply_piece, finish}
use end_to_end_kubernetes_ch.Game.Handlers.{
  undo, force_end, do_promo, is_over, is_pending, select, deselect, click, Action, clicks, picks,
  undoes, times_out, restarts, is_shown, act, act_all,
}
use end_to_end_kubernetes_ch.Game.SoundMoves.{Offered, from, target}
use end_to_end_kubernetes_ch.Game.SoundPassed.{pawn_of}
use end_to_end_kubernetes_ch.Game.SoundGame.{IsSoundGame, act-IsSoundGame, start-IsSoundPosition}
use end_to_end_kubernetes_ch.Game.Replay.{replay_step, replay_from, replay_to_snapshots}
use end_to_end_kubernetes_ch.Game.Replayed.{ep_shape, replayed_entry}

-- The replay of the entries leads from one board to the other.
abbrev pub Leads : Board → List Entry → Board → Type 0
Leads b [] c = b ≡ c
Leads b (m ∷ ms) c = (nb : Board) × (replay_step b m ≡ some nb) × Leads nb ms c

Leads-append :
    (b c d : Board) (m : Entry) (ms : List Entry)
    → Leads b ms c
    → replay_step c m ≡ some d
    → Leads b (ms ++ m ∷ []) d
Leads-append b c d m [] h e = (d, ap (λ x. replay_step x m) h ∙ e, refl)
Leads-append b c d m (x ∷ xs) (nb, f, h) e = (nb, f, Leads-append nb c d m xs h e)

get_last?-cons :
    (b c : Board) (xs : List Board) → get_last? xs ≡ some c → get_last? (b ∷ xs) ≡ some c
get_last?-cons b c [] h = cc
get_last?-cons b c (x ∷ xs) h = h

Leads-replay_from :
    (b c : Board) (ms : List Entry)
    → Leads b ms c
    → (boards : List Board) × (replay_from b ms ≡ some boards)
      × (length boards ≡ suc (length ms))
      × (get_last? boards ≡ some c)
unfolding replay_from
Leads-replay_from b c [] h = (b ∷ [], refl, refl, ap some h)
Leads-replay_from b c (m ∷ ms) (nb, e, h) =
    let (boards, f, l, q) = Leads-replay_from nb c ms h in
    (b ∷ boards, rw (replay_from, e, f) refl, ap suc l, get_last?-cons b c boards q)

none_pending : (p : Option Promo) (b : Bool) → (b || is_pending p) ≡ false → p ≡ none
none_pending none b e = refl
none_pending (some p) true e = cc
none_pending (some p) false e = cc

abbrev pub promo_entry : Promo → Kind → Text → Entry
promo_entry p k san = record {
  color = p.col;
  from = sq p.origin.0 p.origin.1;
  target = sq p.goal.0 p.goal.1;
  moved = piece p.col pawn;
  captured = p.taken;
  promotion = some k;
  san = san;
}

-- Whatever piece is chosen, its entry replays.
abbrev pub ReplayedChoice : Board → Option Promo → Type 0
ReplayedChoice b none = Unit {0}
ReplayedChoice b (some p) =
    (k : Kind) (san : Text)
    → replay_step b (promo_entry p k san) ≡ some (put p.nb p.goal.0 p.goal.1 (some (piece p.col k)))

abbrev pub IsReplayedPosition : Position → Type 0
IsReplayedPosition p = Leads init_board p.move_log p.board

pub record IsReplayed (g : Game) : Type 0 where
  pub here : IsReplayedPosition g.position
  pub choice : ReplayedChoice g.board g.promo
  pub past : All IsReplayedPosition g.past

module _ (now : ℕ) (g : Game) (s : IsReplayed g) where
  do_promo-IsReplayed : (k : Kind) → IsReplayed (do_promo now k g).0
  unfolding do_promo finish
  do_promo-IsReplayed k = elim (Option-cases g.promo) [
    | inl e ↦ rw (do_promo, e) s
    | inr (p, e) ↦
        rw (do_promo, e)
          (record {
            here = Leads-append init_board g.board _ _ g.move_log s.here ((rw e at s.choice) k _);
            choice = tt;
            past = s.past;
          })
  ]

  undo-IsReplayed : (xs : List Position) → g.past ≡ xs → IsReplayed (undo g)
  unfolding undo
  undo-IsReplayed [] e = rw (undo, e) s
  undo-IsReplayed (prev ∷ rest) e = elim (Option-cases g.promo) [
    | inr (p, k) ↦ rw (undo, e, k) s
    | inl k ↦
        let earlier = rw e at s.past in
        rw (undo, e, k) (record { here = earlier.0; choice = tt; past = earlier.1 })
  ]

  module _ (fr fc tr tc : ℕ) (t : Kind) (o : Offered g.board g.turn g.ep g.cast fr fc tr tc t)
      (free : g.promo ≡ none) where
    apply_piece-IsReplayed : IsReplayed (apply_piece now g g.turn t fr fc tr tc none false).0
    unfolding apply_piece finish
    apply_piece-IsReplayed = elim (Bool-cases (must_choose t tr none)) [
      | inl e ↦
          rw (apply_piece, e)
            (record {
              here = s.here;
              choice = λ k san.
                  replayed_entry g.board g.turn t g.ep fr fc tr tc (some k) _ (from o) (target o).0
                    (ep_shape o) refl refl (ap (piece g.turn) (sym (pawn_of t _ e))) refl refl;
              past = (s.here, s.past);
            })
      | inr e ↦
          rw (apply_piece, e)
            (record {
              here = Leads-append init_board g.board _ _ g.move_log s.here (
                  replayed_entry g.board g.turn t g.ep fr fc tr tc none _ (from o) (target o).0
                    (ep_shape o) refl refl refl refl refl);
              choice = rw free tt;
              past = (s.here, s.past);
            })
    ]

  select-IsReplayed :
      (r c : ℕ) (otherwise : Game) → IsReplayed otherwise → IsReplayed (select g r c otherwise)
  select-IsReplayed r c otherwise h = elim (Bool-cases (is_color g.turn (cell g.board r c))) [
    | inr e ↦ rw e h
    | inl e ↦ rw e (record { here = s.here; choice = s.choice; past = s.past })
  ]

  apply_move-IsReplayed :
      (fr fc tr tc : ℕ)
      → IsSoundGame g
      → g.promo ≡ none
      → is_color g.turn (cell g.board fr fc) ≡ true
      → Has (tr, tc) (get_legal g.board fr fc g.ep (some g.cast))
      → IsReplayed (apply_move now g fr fc tr tc none false).0
  unfolding apply_move
  apply_move-IsReplayed fr fc tr tc sound free own legal =
      let (t, e) = is_color_piece g.turn (cell g.board fr fc) own in
      rw (apply_move, e)
        (apply_piece-IsReplayed fr fc tr tc t
          (record { sound = sound.position.sound; there = e; legal = legal }) free)

  click-IsReplayed : (r c : ℕ) → IsSoundGame g → IsReplayed (click now r c g).0
  unfolding click
  click-IsReplayed r c sound = elim (Bool-cases (is_over g.status || is_pending g.promo)) [
    | inl e ↦ rw (click, e) s
    | inr e ↦ elim (Option-cases g.sel) [
      | inl k ↦ rw (click, e, k) (select-IsReplayed r c g s)
      | inr (q, k) ↦
          let (own, offered) = rw k at sound.position.selected in
          elim (Bool-cases (any (same_square (r, c)) g.moves)) [
            | inr m ↦
                rw (click, e, k, m)
                  (select-IsReplayed r c (deselect g)
                    (record { here = s.here; choice = s.choice; past = s.past }))
            | inl m ↦
                let (x, h, same) = any-Has (same_square (r, c)) g.moves m in
                let legal = rw (← (same_square_iff (r, c) x).0 same, offered) at h in
                rw (click, e, k, m)
                  (apply_move-IsReplayed q.0 q.1 r c sound
                    (none_pending g.promo (is_over g.status) e) own legal)
          ]
    ]
  ]

act-IsReplayed :
    (now : ℕ) (a : Action) (g : Game) → IsSoundGame g → IsReplayed g → IsReplayed (act now a g)
unfolding act reset force_end
act-IsReplayed now (clicks r c) g sound s = click-IsReplayed now g s r c sound
act-IsReplayed now (picks k) g sound s = do_promo-IsReplayed now g s k
act-IsReplayed now undoes g sound s = undo-IsReplayed now g s g.past refl
act-IsReplayed now times_out g sound s = record { here = s.here; choice = s.choice; past = s.past }
act-IsReplayed now restarts g sound s = record { here = refl; choice = tt; past = tt }

act_all-IsReplayed :
    (actions : List (ℕ × Action)) (g : Game)
    → All (λ a. is_shown a.1 ≡ true) actions
    → IsSoundGame g
    → IsReplayed g
    → IsReplayed (act_all actions g)
unfolding act_all
act_all-IsReplayed [] g h sound s = s
act_all-IsReplayed (a ∷ rest) g h sound s =
    act_all-IsReplayed rest (act a.0 a.1 g) h.1 (act-IsSoundGame a.0 a.1 g h.0 sound)
      (act-IsReplayed a.0 a.1 g sound s)

-- After every history of clicks, promotions to a piece that the modal shows, undos, timeouts and
-- restarts of a new game, `replayToSnapshots` of `moveLog` gives one board more than the log has moves,
-- and the last of them is the board of the game.
pub act_all-replay_to_snapshots :
    (actions : List (ℕ × Action))
    → All (λ a. is_shown a.1 ≡ true) actions
    → (boards : List Board) × (replay_to_snapshots (act_all actions new_game).move_log
        ≡ some boards)
      × (length boards ≡ suc (length (act_all actions new_game).move_log))
      × (get_last? boards ≡ some (act_all actions new_game).board)
unfolding replay_to_snapshots
act_all-replay_to_snapshots actions h =
    Leads-replay_from init_board _ _
      (act_all-IsReplayed actions new_game h
        (record { position = start-IsSoundPosition; choice = tt; past = tt })
        (record { here = refl; choice = tt; past = tt })).here
