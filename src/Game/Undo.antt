-- ===== src/Game/Undo.antt =====
-- What `undo` gives back, and how a move changes the record of the game.
use end_to_end_kubernetes_ch.Base.{ℕ, ◌≡◌, refl, Bool, true, false, Option, none, some, ◌∷◌, arith}
use end_to_end_kubernetes_ch.Engine.{Color, Kind, piece, cell}
use end_to_end_kubernetes_ch.Game.{Game}
use end_to_end_kubernetes_ch.Game.Apply.{apply_move, apply_piece, finish, must_choose}
use end_to_end_kubernetes_ch.Game.Handlers.{undo, do_promo}

module _ (now : ℕ) (g : Game) (fr fc tr tc : ℕ) (p : Option Kind) (silent : Bool) where
  -- A move of a piece pushes the position before it, and nothing else on `past`.
  apply_move-past :
      (col : Color) (t : Kind)
      → cell g.board fr fc ≡ some (piece col t)
      → (apply_move now g fr fc tr tc p silent).0.past ≡ g.position ∷ g.past
  unfolding apply_move apply_piece finish
  apply_move-past col t e = rw (e, apply_move) (ground arith)

-- What `undo` does to a game with a snapshot and no pending promotion.
undo-eq :
    (g h : Game)
    → h.past ≡ g.position ∷ g.past
    → h.promo ≡ none
    → h.game_start ≡ g.game_start
    → g.promo ≡ none
    → undo h ≡ g
unfolding undo
undo-eq g h past promo start q = ground arith

-- Undo after a move that was completed gives back the position before it, the castling rights,
-- the captures, the notation and the selection included, and the earlier undo stack.
pub undo-apply_move :
    (now : ℕ) (g : Game) (fr fc tr tc : ℕ) (p : Option Kind) (silent : Bool) (col : Color)
    (t : Kind)
    → cell g.board fr fc ≡ some (piece col t)
    → g.promo ≡ none
    → must_choose t tr p ≡ false
    → undo (apply_move now g fr fc tr tc p silent).0 ≡ g
unfolding apply_move apply_piece finish
undo-apply_move now g fr fc tr tc p silent col t e q m =
    rw (e, apply_move, m) (undo-eq g _ refl q refl q)

-- A promotion is undone as a whole once the piece is chosen; while the choice is pending, `undo`
-- does nothing.
pub undo-promotion :
    (now later : ℕ) (g : Game) (fr fc tr tc : ℕ) (k : Kind) (silent : Bool) (col : Color) (t : Kind)
    → cell g.board fr fc ≡ some (piece col t)
    → g.promo ≡ none
    → must_choose t tr none ≡ true
    → let pending = (apply_move now g fr fc tr tc none silent).0 in
      (undo pending ≡ pending) × (undo (do_promo later k pending).0 ≡ g)
unfolding apply_move apply_piece finish do_promo
undo-promotion now later g fr fc tr tc k silent col t e q m =
    rw (e, apply_move, m) (unfold undo in refl, undo-eq g _ refl refl refl q)
