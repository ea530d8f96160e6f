-- ===== src/Rooms/Frozen.antt =====
-- What a game that is over keeps: every transaction of gameSocket.js and models/Game.js
-- (Chess-Backend/src) leaves its row alone, but for the room id that a rematch takes away.
use Prim.Native.String.{String}
use end_to_end_kubernetes_ch.Base.{
  ℕ, ◌≡◌, ◌∙◌, refl, sym, ap, subst, ◌⊎◌, inl, inr, Bool, true, Option, List, [], ◌∷◌, ◌++◌, arith,
  Bool-cases, Option-cases, filter, ◌==◌,
}
use end_to_end_kubernetes_ch.Engine.{Color}
use end_to_end_kubernetes_ch.Store.{
  in_progress, GameResult, GameRow, Tables, create, claim_black, join_black_by_id, is_live, is_open,
  update_where, count_where, seat_black, finish_row, find_by_room_id, one_row,
}
use end_to_end_kubernetes_ch.Store.Finalize.{Match, Player, finalize_game}
use end_to_end_kubernetes_ch.Store.Persist.{ChessJs, persist_move, set_fen}
use end_to_end_kubernetes_ch.Store.Recorded.{persist_move-Accepted}
use end_to_end_kubernetes_ch.Store.Once.{was_over, was_unrated, was_rated, finalize_game-Finalized}
use end_to_end_kubernetes_ch.Store.Seats.{claim_black_lem}
use end_to_end_kubernetes_ch.Store.Settled.{some_pair-inj}
use end_to_end_kubernetes_ch.Rooms.Rematch.{
  start_rematch, seat_both, release_room, is_over_game, without_room,
}
use end_to_end_kubernetes_ch.Rooms.Law.{KeepsTx}

-- A row afterwards: the game was running, or only its room id differs.
abbrev pub RowKept : GameRow → GameRow → Type 0
RowKept g g' = (g.status ≡ in_progress) ⊎ (g' ≡ record g { room_id = g'.room_id })

-- The rows of a table afterwards, in their places; new ones come last.
abbrev pub Extends : List GameRow → List GameRow → Type 0
Extends [] gs' = Unit
Extends (g ∷ gs) [] = ⊥
Extends (g ∷ gs) (g' ∷ gs') = RowKept g g' × Extends gs gs'

RowKept-trans : (a b c : GameRow) → RowKept a b → RowKept b c → RowKept a c
RowKept-trans a b c (inl e) k = inl e
RowKept-trans a b c (inr e) (inl f) = inl (sym (ap (λ (x : GameRow). x.status) e) ∙ f)
RowKept-trans a b c (inr e) (inr f) =
    inr (f ∙ ap (λ (x : GameRow). record x { room_id = c.room_id }) e)

pub Extends-refl : (gs : List GameRow) → Extends gs gs
Extends-refl [] = tt
Extends-refl (g ∷ gs) = (inr refl, Extends-refl gs)

pub Extends-trans : (xs ys zs : List GameRow) → Extends xs ys → Extends ys zs → Extends xs zs
Extends-trans [] ys zs h k = tt
Extends-trans (a ∷ xs) [] zs h k = absurd h
Extends-trans (a ∷ xs) (b ∷ ys) [] h k = absurd k
Extends-trans (a ∷ xs) (b ∷ ys) (c ∷ zs) h k =
    (RowKept-trans a b c h.0 k.0, Extends-trans xs ys zs h.1 k.1)

Extends-append : (gs new : List GameRow) → Extends gs (gs ++ new)
Extends-append [] new = tt
Extends-append (g ∷ gs) new = (inr refl, Extends-append gs new)

Extends-update_where :
    (q : GameRow → Bool) (f : GameRow → GameRow) (gs : List GameRow)
    → ((g : GameRow) → q g ≡ true → RowKept g (f g))
    → Extends gs (update_where q f gs)
Extends-update_where q f [] h = tt
Extends-update_where q f (g ∷ gs) h = elim (Bool-cases (q g)) [
  | inl e ↦ rw e (h g e, Extends-update_where q f gs h)
  | inr e ↦ rw e (inr refl, Extends-update_where q f gs h)
]

live_running : (id : ℕ) (g : GameRow) → is_live id g ≡ true → g.status ≡ in_progress
live_running id g e = ground arith

open_running : (id : ℕ) (g : GameRow) → is_open id g ≡ true → g.status ≡ in_progress
open_running id g e = ground arith

pub Extends-live :
    (id : ℕ) (f : GameRow → GameRow) (gs : List GameRow)
    → Extends gs (update_where (is_live id) f gs)
Extends-live id f gs = Extends-update_where (is_live id) f gs (λ g e. inl (live_running id g e))

Extends-open :
    (id : ℕ) (f : GameRow → GameRow) (gs : List GameRow)
    → Extends gs (update_where (is_open id) f gs)
Extends-open id f gs = Extends-update_where (is_open id) f gs (λ g e. inl (open_running id g e))

abbrev pub Kept : Tables → Tables → Type 0
Kept db db' = Extends db.games db'.games

pub create-Kept :
    (id : ℕ) (user : Option ℕ) (name fen : String) (now : ℕ)
    → KeepsTx Kept (create id user name fen now)
unfolding create
create-Kept id user name fen now db db' g h = elim (Option-cases (find_by_room_id id db)) [
  | inl e ↦
      let (p, r) = some_pair-inj (rw (create, e) at h) in
      subst (λ (x : Tables). Kept db x) (sym p) (Extends-append db.games _)
  | inr (row, e) ↦ absurd (cc (rw (create, e) at h))
]

join_black-Kept :
    (id : ℕ) (user : Option ℕ) (name : String) → KeepsTx Kept (join_black_by_id id user name)
unfolding join_black_by_id
join_black-Kept id user name db db' g h =
    elim (Option-cases (one_row (filter (is_open id) db.games))) [
      | inl e ↦ absurd (cc (rw (join_black_by_id, e) at h))
      | inr (row, e) ↦
          let (p, r) = some_pair-inj (rw (join_black_by_id, e) at h) in
          subst (λ (x : Tables). Kept db x) (sym p)
            (Extends-open id (seat_black user name) db.games)
    ]

pub claim_black-Kept :
    (id : ℕ) (user : Option ℕ) (name : String) → KeepsTx Kept (claim_black id user name)
claim_black-Kept id user name db db' seat h =
    let (g, e, c) = claim_black_lem id user name db h in
    elim c [
      | inl (k, p, r) ↦ subst (λ (x : Tables). Kept db x) (sym p) (Extends-refl db.games)
      | inr (k, p, r) ↦
          subst (λ (x : Tables). Kept db x) (sym p)
            (Extends-open id (seat_black user name) db.games)
    ]

pub persist_move-Kept :
    (chess : ChessJs) (game : ℕ) (col : Color) (request : chess.Request)
    → KeepsTx Kept (persist_move chess game col request)
persist_move-Kept chess game col request db db' v h =
    elim (persist_move-Accepted chess game col request db h) [
      | inl r ↦ subst (λ (x : Tables). Kept db x) (sym (r.0)) (Extends-refl db.games)
      | inr (after, san, ok, p, r) ↦
          subst (λ (x : Tables). Kept db x) (sym p)
            (Extends-live game (set_fen (chess.fen after)) db.games)
    ]

pub finalize_game-Kept :
    (ratings : ℕ → ℕ → ℕ → ℕ × ℕ) (m : Match) (result : GameResult) (winner : Option Color)
    (now : ℕ)
    → KeepsTx Kept (finalize_game ratings m result winner now)
finalize_game-Kept ratings m result winner now db db' s h =
    elim (finalize_game-Finalized ratings m result winner now db h) [
      | was_over e p r ↦ subst (λ (x : Tables). Kept db x) (sym p) (Extends-refl db.games)
      | was_unrated e f p r ↦
          subst (λ (x : Tables). Kept db x) (sym p)
            (Extends-live m.game_id (finish_row result winner) db.games)
      | was_rated w b wu bu e f ne ew eb st ↦
          subst (λ x. Extends db.games x) (sym (st.3))
            (Extends-live m.game_id (finish_row result winner) db.games)
    ]

release_room-Kept : (id : ℕ) → KeepsTx Kept (release_room id)
unfolding release_room
release_room-Kept id db db' u h = elim (Bool-cases (count_where (is_over_game id) db.games == 1)) [
  | inr e ↦ absurd (cc (rw e at h))
  | inl e ↦
      let (p, r) = some_pair-inj (rw e at h) in
      subst (λ (x : Tables). Kept db x) (sym p)
        (Extends-update_where (is_over_game id) without_room db.games (λ g e. inr refl))
]

seat_both-Kept :
    (room : ℕ) (w b : Player) (fen : String) (now : ℕ) → KeepsTx Kept (seat_both room w b fen now)
unfolding seat_both
seat_both-Kept room w b fen now db db' g h =
    elim (Option-cases (create room w.user_id w.name fen now db)) [
      | inl e ↦ absurd (cc (rw (seat_both, e) at h))
      | inr (made, e) ↦ elim (Option-cases (join_black_by_id (made.1).id b.user_id b.name made.0)) [
        | inl f ↦ absurd (cc (rw (seat_both, e, f) at h))
        | inr (seated, f) ↦
            let (p, r) = some_pair-inj (rw (seat_both, e, f) at h) in
            subst (λ (x : Tables). Kept db x) (sym p)
              (Extends-trans db.games (made.0).games (seated.0).games
                (create-Kept room w.user_id w.name fen now db made.0 made.1 e)
                (join_black-Kept (made.1).id b.user_id b.name made.0 seated.0 seated.1 f))
      ]
    ]

pub start_rematch-Kept :
    (old room : ℕ) (w b : Player) (fen : String) (now : ℕ)
    → KeepsTx Kept (start_rematch old room w b fen now)
unfolding start_rematch
start_rematch-Kept old room w b fen now db db' g h = elim (Option-cases (release_room old db)) [
  | inl e ↦ absurd (cc (rw (start_rematch, e) at h))
  | inr (released, e) ↦
      Extends-trans db.games (released.0).games db'.games
        (release_room-Kept old db released.0 released.1 e)
        (seat_both-Kept room w b fen now released.0 db' g (rw (start_rematch, e) at h))
]
