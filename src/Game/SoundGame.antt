-- ===== src/Game/SoundGame.antt =====
-- The positions of a local game (useChessGame.js) over every history of clicks, promotions, undos,
-- timeouts and restarts.
use end_to_end_kubernetes_ch.Base.{
  ℕ, ◌≡◌, refl, inl, inr, true, false, Option, none, some, List, [], ◌∷◌, ◌||◌, any, All, Has,
  Bool-cases, Option-cases, any-Has,
}
use end_to_end_kubernetes_ch.Engine.{
  Kind, pawn, knight, bishop, rook, queen, king, piece, Square, same_kind, is_color, cell, put,
}
use end_to_end_kubernetes_ch.Engine.Check.{get_legal, same_square}
use end_to_end_kubernetes_ch.Engine.InCheck.{is_color_piece, same_square_iff}
use end_to_end_kubernetes_ch.Game.{Position, Promo, Game, reset, new_game, start_position}
use end_to_end_kubernetes_ch.Game.Apply.{apply_move, apply_piece, finish, must_choose}
use end_to_end_kubernetes_ch.Game.Handlers.{
  undo, force_end, do_promo, is_over, is_pending, select, deselect, click, Action, clicks, picks,
  undoes, times_out, restarts, is_shown, act, act_all,
}
use end_to_end_kubernetes_ch.Game.Soundness.{IsSound}
use end_to_end_kubernetes_ch.Game.SoundMoves.{Offered}
use end_to_end_kubernetes_ch.Game.SoundStart.{start-IsSound}
use end_to_end_kubernetes_ch.Game.SoundBoards.{moved-IsSound, chosen-IsSound}

-- The square that is selected holds a piece of the side to move, and `moves` are its legal moves.
abbrev pub Selected : Position → Option Square → Type 0
Selected p none = Unit {0}
Selected p (some s) =
    (is_color p.turn (cell p.board s.0 s.1) ≡ true)
    × (p.moves ≡ get_legal p.board s.0 s.1 p.ep (some p.cast))

pub record IsSoundPosition (p : Position) : Type 0 where
  pub sound : IsSound p.board p.turn p.ep p.cast
  pub selected : Selected p p.sel

-- Whatever piece the player chooses, except a king, the position is sound.
abbrev pub SoundChoice : Option Promo → Type 0
SoundChoice none = Unit {0}
SoundChoice (some p) =
    (k : Kind)
    → same_kind k king ≡ false
    → IsSound (put p.nb p.goal.0 p.goal.1 (some (piece p.col k))) p.nt p.nep p.nc

pub record IsSoundGame (g : Game) : Type 0 where
  pub position : IsSoundPosition g.position
  pub choice : SoundChoice g.promo
  pub past : All IsSoundPosition g.past

module _ (now : ℕ) (g : Game) (s : IsSoundGame g) where
  select-IsSoundGame :
      (r c : ℕ) (otherwise : Game) → IsSoundGame otherwise → IsSoundGame (select g r c otherwise)
  select-IsSoundGame r c otherwise h = elim (Bool-cases (is_color g.turn (cell g.board r c))) [
    | inr e ↦ rw e h
    | inl e ↦ rw e (record {
      position = record { sound = s.position.sound; selected = (e, refl) };
      choice = s.choice;
      past = s.past;
    })
  ]

  deselect-IsSoundGame : IsSoundGame (deselect g)
  deselect-IsSoundGame = record {
    position = record { sound = s.position.sound; selected = tt };
    choice = s.choice;
    past = s.past;
  }

  force_end-IsSoundGame : IsSoundGame (force_end now g).0
  unfolding force_end
  force_end-IsSoundGame = record {
    position = record { sound = s.position.sound; selected = s.position.selected };
    choice = s.choice;
    past = s.past;
  }

  -- `finish` sets the board, the turn, the en passant square and the rights that it is given.
  do_promo-IsSoundGame : (k : Kind) → same_kind k king ≡ false → IsSoundGame (do_promo now k g).0
  unfolding do_promo finish
  do_promo-IsSoundGame k nk = elim (Option-cases g.promo) [
    | inl e ↦ rw (do_promo, e) s
    | inr (p, e) ↦
        rw (do_promo, e)
          (record {
            position = record { sound = (rw e at s.choice) k nk; selected = tt };
            choice = tt;
            past = s.past;
          })
  ]

  undo-IsSoundGame_of : (xs : List Position) → g.past ≡ xs → IsSoundGame (undo g)
  unfolding undo
  undo-IsSoundGame_of [] e = rw (undo, e) s
  undo-IsSoundGame_of (prev ∷ rest) e = elim (Option-cases g.promo) [
    | inr (p, k) ↦ rw (undo, e, k) s
    | inl k ↦
        let earlier = rw e at s.past in
        rw (undo, e, k) (record { position = earlier.0; choice = tt; past = earlier.1 })
  ]

  -- A move that was offered.
  module _ (fr fc tr tc : ℕ) (t : Kind) (o : Offered g.board g.turn g.ep g.cast fr fc tr tc t) where
    apply_piece-IsSoundGame : IsSoundGame (apply_piece now g g.turn t fr fc tr tc none false).0
    unfolding apply_piece finish
    apply_piece-IsSoundGame = elim (Bool-cases (must_choose t tr none)) [
      | inl e ↦
          rw (apply_piece, e)
            (record {
              position = record { sound = s.position.sound; selected = s.position.selected };
              choice = chosen-IsSound o e;
              past = (s.position, s.past);
            })
      | inr e ↦
          rw (apply_piece, e)
            (record {
              position = record { sound = moved-IsSound o; selected = tt };
              choice = s.choice;
              past = (s.position, s.past);
            })
    ]

  apply_move-IsSoundGame :
      (fr fc tr tc : ℕ)
      → is_color g.turn (cell g.board fr fc) ≡ true
      → Has (tr, tc) (get_legal g.board fr fc g.ep (some g.cast))
      → IsSoundGame (apply_move now g fr fc tr tc none false).0
  unfolding apply_move
  apply_move-IsSoundGame fr fc tr tc own legal =
      let (t, e) = is_color_piece g.turn (cell g.board fr fc) own in
      rw (apply_move, e)
        (apply_piece-IsSoundGame fr fc tr tc t
          (record { sound = s.position.sound; there = e; legal = legal }))

  click-IsSoundGame : (r c : ℕ) → IsSoundGame (click now r c g).0
  unfolding click
  click-IsSoundGame r c = elim (Bool-cases (is_over g.status || is_pending g.promo)) [
    | inl e ↦ rw (click, e) s
    | inr e ↦ elim (Option-cases g.sel) [
      | inl k ↦ rw (click, e, k) (select-IsSoundGame r c g s)
      | inr (q, k) ↦
          let (own, offered) = rw k at s.position.selected in
          elim (Bool-cases (any (same_square (r, c)) g.moves)) [
            | inr m ↦ rw (click, e, k, m) (select-IsSoundGame r c (deselect g) deselect-IsSoundGame)
            | inl m ↦
                let (x, h, same) = any-Has (same_square (r, c)) g.moves m in
                let legal = rw (← (same_square_iff (r, c) x).0 same, offered) at h in
                rw (click, e, k, m) (apply_move-IsSoundGame q.0 q.1 r c own legal)
          ]
    ]
  ]

shown_no_king : (k : Kind) → is_shown (picks k) ≡ true → same_kind k king ≡ false
shown_no_king king h = cc
shown_no_king pawn h = refl
shown_no_king knight h = refl
shown_no_king bishop h = refl
shown_no_king rook h = refl
shown_no_king queen h = refl

pub start-IsSoundPosition : IsSoundPosition start_position
start-IsSoundPosition = record { sound = start-IsSound; selected = tt }

pub act-IsSoundGame :
    (now : ℕ) (a : Action) (g : Game)
    → is_shown a ≡ true
    → IsSoundGame g
    → IsSoundGame (act now a g)
unfolding act reset
act-IsSoundGame now (clicks r c) g h s = click-IsSoundGame now g s r c
act-IsSoundGame now (picks k) g h s = do_promo-IsSoundGame now g s k (shown_no_king k h)
act-IsSoundGame now undoes g h s = undo-IsSoundGame_of now g s g.past refl
act-IsSoundGame now times_out g h s = force_end-IsSoundGame now g s
act-IsSoundGame now restarts g h s = record {
  position = start-IsSoundPosition;
  choice = tt;
  past = tt;
}

act_all-IsSoundGame_from :
    (actions : List (ℕ × Action)) (g : Game)
    → All (λ a. is_shown a.1 ≡ true) actions
    → IsSoundGame g
    → IsSoundGame (act_all actions g)
unfolding act_all
act_all-IsSoundGame_from [] g h s = s
act_all-IsSoundGame_from (a ∷ rest) g h s =
    act_all-IsSoundGame_from rest (act a.0 a.1 g) h.1 (act-IsSoundGame a.0 a.1 g h.0 s)

-- After every history of clicks, promotions to a piece that the modal shows, undos, timeouts and
-- restarts of a new game, the position and every position that undo can give back are sound: the
-- board has eight by eight squares and one king of each colour, the side that has moved is not in
-- check, a pawn stands behind the en passant square, each castling right has its rook on its
-- corner, and the moves that are shown are the legal moves of a piece of the side to move. While a
-- promotion is pending, every piece but a king leads to a sound position.
pub act_all-IsSoundGame :
    (actions : List (ℕ × Action))
    → All (λ a. is_shown a.1 ≡ true) actions
    → IsSoundGame (act_all actions new_game)
act_all-IsSoundGame actions h =
    act_all-IsSoundGame_from actions new_game h
      (record { position = start-IsSoundPosition; choice = tt; past = tt })
