-- ===== src/Rooms/RematchOnce.antt =====
-- Two processes may reach the rematch quorum together (`accept_rematch` of
-- Chess-Backend/src/socket/gameSocket.js): one transaction wins.
use Prim.Native.String.{String}
use end_to_end_kubernetes_ch.Base.{
  ℕ, ◌≡◌, refl, sym, subst, inl, inr, Bool, true, false, Option, none, some, List, [], ◌∷◌, ◌++◌,
  arith, ◌==◌, ◌&&◌, Bool-cases, Option-cases, filter, find, any,
}
use end_to_end_kubernetes_ch.Store.{
  GameRow, Tables, is_in_progress, has_room, create, join_black_by_id, count_where, update_where,
  find_by_room_id, one_row, is_open, seat_black,
}
use end_to_end_kubernetes_ch.Store.Finalize.{Player}
use end_to_end_kubernetes_ch.Store.Settled.{some_pair-inj}
use end_to_end_kubernetes_ch.Rooms.Rematch.{
  start_rematch, seat_both, release_room, is_over_game, without_room,
}

-- A running game holds the room.
abbrev pub is_held : ℕ → GameRow → Bool
is_held room g = has_room room g && is_in_progress g.status

abbrev pub IsHeld : ℕ → Tables → Type 0
IsHeld room db = any (is_held room) db.games ≡ true

any-append_last :
    (p : GameRow → Bool) (gs : List GameRow) (g : GameRow)
    → p g ≡ true
    → any p (gs ++ g ∷ []) ≡ true
any-append_last p [] g e = rw e refl
any-append_last p (x ∷ gs) g e = ground (arith, any-append_last p gs g e)

any-update_where :
    (p q : GameRow → Bool) (f : GameRow → GameRow) (gs : List GameRow)
    → ((g : GameRow) → p g ≡ true → q g ≡ true → p (f g) ≡ true)
    → any p gs ≡ true
    → any p (update_where q f gs) ≡ true
any-update_where p q f [] h e = e
any-update_where p q f (g ∷ gs) h e = elim (Bool-cases (p g)) [
  | inl k ↦ elim (Bool-cases (q g)) [ inl l ↦ rw (l, h g k l) refl | inr l ↦ rw (l, k) refl ]
  | inr k ↦ ground (arith, any-update_where p q f gs h (rw k at e))
]

any-find :
    (p r : GameRow → Bool) (gs : List GameRow)
    → ((g : GameRow) → p g ≡ true → r g ≡ true)
    → any p gs ≡ true
    → (g : GameRow) × (find r gs ≡ some g)
any-find p r [] h e = cc
any-find p r (g ∷ gs) h e = elim (Bool-cases (r g)) [
  | inl k ↦ (g, rw k refl)
  | inr k ↦
      let off : p g ≡ false = ground (arith, h g) in
      let (x, f) = any-find p r gs h (rw off at e) in (x, rw k f)
]

held_room : (room : ℕ) (g : GameRow) → is_held room g ≡ true → has_room room g ≡ true
held_room room g e = ground arith

-- The new game holds the room, and goes on doing so.
create-IsHeld :
    (room : ℕ) (user : Option ℕ) (name fen : String) (now : ℕ) (db db' : Tables) (g : GameRow)
    → create room user name fen now db ≡ some (db', g)
    → IsHeld room db'
unfolding create
create-IsHeld room user name fen now db db' g h = elim (Option-cases (find_by_room_id room db)) [
  | inl e ↦
      subst (IsHeld room) (sym (some_pair-inj (rw (create, e) at h)).0)
        (any-append_last (is_held room) db.games _ (ground arith))
  | inr (row, e) ↦ absurd (cc (rw (create, e) at h))
]

join_black-IsHeld :
    (room id : ℕ) (user : Option ℕ) (name : String) (db db' : Tables) (g : GameRow)
    → join_black_by_id id user name db ≡ some (db', g)
    → IsHeld room db
    → IsHeld room db'
unfolding join_black_by_id
join_black-IsHeld room id user name db db' g h held =
    elim (Option-cases (one_row (filter (is_open id) db.games))) [
      | inl e ↦ absurd (cc (rw (join_black_by_id, e) at h))
      | inr (row, e) ↦ subst (IsHeld room) (sym (some_pair-inj (rw (join_black_by_id, e) at h)).0) (
          any-update_where (is_held room) (is_open id) (seat_black user name) db.games (λ x k l. k)
            held)
    ]

over_not_held : (room id : ℕ) (g : GameRow) → is_held room g ≡ true → is_over_game id g ≡ true → ⊥
over_not_held room id g k l = ground arith

release_room-IsHeld :
    (room id : ℕ) (db db' : Tables) (u : Unit {0})
    → release_room id db ≡ some (db', u)
    → IsHeld room db
    → IsHeld room db'
unfolding release_room
release_room-IsHeld room id db db' u h held =
    elim (Bool-cases (count_where (is_over_game id) db.games == 1)) [
      | inr e ↦ absurd (cc (rw e at h))
      | inl e ↦ subst (IsHeld room) (sym (some_pair-inj (rw e at h)).0) (
          any-update_where (is_held room) (is_over_game id) without_room db.games
            (λ g k l. absurd (over_not_held room id g k l)) held)
    ]

create-held :
    (room : ℕ) (user : Option ℕ) (name fen : String) (now : ℕ) (db : Tables)
    → IsHeld room db
    → create room user name fen now db ≡ none
unfolding create find_by_room_id
create-held room user name fen now db held =
    let (g, e) = any-find (is_held room) (has_room room) db.games (held_room room) held in
    rw (create, find_by_room_id, e) refl

start_rematch-IsHeld :
    (old room : ℕ) (w b : Player) (fen : String) (now : ℕ) (db db' : Tables) (g : GameRow)
    → start_rematch old room w b fen now db ≡ some (db', g)
    → IsHeld room db'
unfolding start_rematch seat_both
start_rematch-IsHeld old room w b fen now db db' g h = elim (Option-cases (release_room old db)) [
  | inl e ↦ absurd (cc (rw (start_rematch, e) at h))
  | inr (r, e) ↦ elim (Option-cases (create room w.user_id w.name fen now r.0)) [
    | inl f ↦ absurd (cc (rw (start_rematch, e, seat_both, f) at h))
    | inr (made, f) ↦ elim (Option-cases (join_black_by_id (made.1).id b.user_id b.name made.0)) [
      | inl k ↦ absurd (cc (rw (start_rematch, e, seat_both, f, k) at h))
      | inr (seated, k) ↦
          subst (IsHeld room) (sym (some_pair-inj (rw (start_rematch, e, seat_both, f, k) at h)).0)
            (join_black-IsHeld room (made.1).id b.user_id b.name made.0 seated.0 seated.1 k
              (create-IsHeld room w.user_id w.name fen now r.0 made.0 made.1 f))
    ]
  ]
]

start_rematch-held :
    (old room : ℕ) (w b : Player) (fen : String) (now : ℕ) (db : Tables)
    → IsHeld room db
    → start_rematch old room w b fen now db ≡ none
unfolding start_rematch seat_both
start_rematch-held old room w b fen now db held = elim (Option-cases (release_room old db)) [
  | inl e ↦ rw (start_rematch, e) refl
  | inr (r, e) ↦
      rw
        (
          start_rematch,
          e,
          seat_both,
          create-held room w.user_id w.name fen now r.0
              (release_room-IsHeld room old db r.0 r.1 e held),
        )
        refl
]

-- Of two rematch transactions for a room, whatever games they start from, the second finds the room
-- held by the game that the first has created and is rolled back.
pub start_rematch-once :
    (old old' room : ℕ) (w b w' b' : Player) (fen fen' : String) (now now' : ℕ) (db db' : Tables)
    (g : GameRow)
    → start_rematch old room w b fen now db ≡ some (db', g)
    → start_rematch old' room w' b' fen' now' db' ≡ none
start_rematch-once old old' room w b w' b' fen fen' now now' db db' g h =
    start_rematch-held old' room w' b' fen' now' db'
      (start_rematch-IsHeld old room w b fen now db db' g h)
