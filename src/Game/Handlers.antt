-- ===== src/Game/Handlers.antt =====
-- The handlers that useChessGame.js returns: `click`, `doPromo`, `undo`, `forceEnd`,
-- `applyRemoteMove`.
use end_to_end_kubernetes_ch.Base.{
  ℕ, Bool, true, false, Option, none, some, List, [], ◌∷◌, ◌++◌, ◌||◌, if◌then◌else◌, length, any,
}
use end_to_end_kubernetes_ch.Engine.{
  Kind, pawn, knight, bishop, rook, queen, piece, is_color, same_kind, cell, put,
}
use end_to_end_kubernetes_ch.Engine.Check.{get_legal, same_square}
use end_to_end_kubernetes_ch.Game.{
  Status, checkmate, stalemate, timeout, Promo, Game, end_sound, Effect, play_sound, game_finished,
  sq, letter, reset,
}
use end_to_end_kubernetes_ch.Game.Apply.{apply_move, finish, duration}

-- `undo`
unfoldable pub undo : Game → Game
undo g = elim g.past [
  | [] ↦ g
  | prev ∷ rest ↦ elim g.promo [
    | none ↦ record g { position = prev; promo = none; past = rest }
    | some p ↦ g
  ]
]

-- `forceEnd("timeout")`
unfoldable pub force_end : ℕ → Game → Game × List Effect
force_end now g = (
  record g { position = record (g.position) { status = some timeout } },
  play_sound end_sound
      ∷ game_finished (length g.move_log) (duration now g.game_start) true g.move_log
      ∷ [],
)

-- `doPromo`: the modal that calls it is shown only while a promotion is pending.
unfoldable pub do_promo : ℕ → Kind → Game → Game × List Effect
do_promo now t g = elim g.promo [
  | none ↦ (g, [])
  | some p ↦
      finish now
        (record g {
          position = record (g.position) { last_mv = some (p.origin, p.goal) };
          promo = none;
        })
        (put p.nb p.goal.0 p.goal.1 (some (piece p.col t))) p.nt p.nep p.nc
        (sq p.goal.0 p.goal.1 ++ b'=' ∷ letter t ∷ [])
        (record {
          color = p.col;
          from = sq p.origin.0 p.origin.1;
          target = sq p.goal.0 p.goal.1;
          moved = piece p.col pawn;
          captured = p.taken;
          promotion = some t;
          san = [];
        })
        false
]

abbrev pub is_over : Option Status → Bool
is_over (some checkmate) = true
is_over (some stalemate) = true
is_over (some timeout) = true
is_over _ = false

abbrev pub is_pending : Option Promo → Bool
is_pending none = false
is_pending (some p) = true

-- `if (p && pc(p) === turn) { setSel([r, c]); setMoves(getLegal(…)); }`
abbrev pub select : Game → ℕ → ℕ → Game → Game
select g r c otherwise =
    if is_color g.turn (cell g.board r c)
    then record g {
      position = record (g.position) {
        sel = some (r, c);
        moves = get_legal g.board r c g.ep (some g.cast);
      };
    }
    else otherwise

abbrev pub deselect : Game → Game
deselect g = record g { position = record (g.position) { sel = none; moves = [] } }

-- `click`
unfoldable pub click : ℕ → ℕ → ℕ → Game → Game × List Effect
click now r c g = if is_over g.status || is_pending g.promo then (g, []) else elim g.sel [
  | none ↦ (select g r c g, [])
  | some s ↦
      if any (same_square (r, c)) g.moves
      then apply_move now g s.0 s.1 r c none false
      else (select g r c (deselect g), [])
]

-- What a player can do at the board.
pub data Action : Type 0 where
  clicks : ℕ → ℕ → Action
  picks : Kind → Action
  undoes : Action
  times_out : Action
  restarts : Action

-- The pieces that PromotionModal.js shows.
abbrev pub promotion_choices : List Kind
promotion_choices = queen ∷ rook ∷ bishop ∷ knight ∷ []

abbrev pub is_shown : Action → Bool
is_shown (picks k) = any (same_kind k) promotion_choices
is_shown (clicks r c) = true
is_shown undoes = true
is_shown times_out = true
is_shown restarts = true

-- The handler that an action calls, at the time `now`.
unfoldable pub act : ℕ → Action → Game → Game
act now (clicks r c) g = (click now r c g).0
act now (picks k) g = (do_promo now k g).0
act now undoes g = undo g
act now times_out g = (force_end now g).0
act now restarts g = reset now g

-- A history of actions, each with its time.
unfoldable pub act_all : List (ℕ × Action) → Game → Game
act_all [] g = g
act_all (a ∷ rest) g = act_all rest (act a.0 a.1 g)
