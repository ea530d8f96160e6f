-- ===== src/Tournament/Seats.antt =====
-- The players of a tournament (`join` of Chess-Backend/src/models/Tournament.js).
use end_to_end_kubernetes_ch.Base.{
  ℕ, ◌+◌, ◌≤◌, ◌≡◌, ◌∙◌, refl, sym, ap, inl, inr, Bool, false, some, List, [], ◌∷◌, ◌++◌, arith,
  ◌==◌, leb, if◌then◌else◌, find, any, Bool-cases,
}
use end_to_end_kubernetes_ch.Store.{count_where}
use end_to_end_kubernetes_ch.Tournament.{
  TournamentRow, Cups, has_id, is_seat, is_seat_of, is_open_phase, join,
}

count_where-append_last :
    {A : Type 0} (p : A → Bool) (xs : List A) (x : A)
    → count_where p (xs ++ x ∷ []) ≡ count_where p xs + (if p x then 1 else 0)
count_where-append_last p [] x = omega arith
count_where-append_last p (y ∷ xs) x = omega (arith, count_where-append_last p xs x)

-- What a tournament's seats promise: at most `max` of them, and at most one of the user's.
abbrev pub SeatsOk : ℕ → ℕ → ℕ → List (ℕ × ℕ) → Type 0
SeatsOk max id user seats =
    (count_where (is_seat_of id) seats ≤ max) × (count_where (is_seat id user) seats ≤ 1)

none_counted : {A : Type 0} (p : A → Bool) (xs : List A) → any p xs ≡ false → count_where p xs ≡ 0
none_counted p [] h = refl
none_counted p (x ∷ xs) h = ground (arith, none_counted p xs)

one_more :
    (max id user : ℕ) (seats : List (ℕ × ℕ))
    → leb max (count_where (is_seat_of id) seats) ≡ false
    → count_where (is_seat_of id) (seats ++ (id, user) ∷ []) ≤ max
one_more max id user seats l =
    ground (arith, count_where-append_last (is_seat_of id) seats (id, user))

first_seat :
    (id user other : ℕ) (seats : List (ℕ × ℕ))
    → any (is_seat id user) seats ≡ false
    → count_where (is_seat id other) seats ≤ 1
    → count_where (is_seat id other) (seats ++ (id, user) ∷ []) ≤ 1
first_seat id user other seats s once = elim (Bool-cases (user == other)) [
  | inl e ↦
      let eq : user ≡ other = ground (arith, e) in
      ground (
        arith,
        count_where-append_last (is_seat id other) seats (id, user),
        none_counted (is_seat id other) seats (ap (λ u. any (is_seat id u) seats) (sym eq) ∙ s),
      )
  | inr e ↦ ground (arith, count_where-append_last (is_seat id other) seats (id, user))
]

-- A join, by whatever user, keeps the number of players of the tournament within its maximum, and
-- gives no user a second seat in it.
pub join-SeatsOk :
    (t : TournamentRow) (id user other : ℕ) (db : Cups)
    → find (has_id id) db.tournaments ≡ some t
    → SeatsOk t.max_players id other db.players
    → SeatsOk t.max_players id other (join id user db).0.players
unfolding join
join-SeatsOk t id user other db e (few, once) = elim (Bool-cases (is_open_phase t.status)) [
  | inr o ↦ rw (join, e, o) (few, once)
  | inl o ↦ elim (Bool-cases (any (is_seat id user) db.players)) [
    | inl s ↦ rw (join, e, o, s) (few, once)
    | inr s ↦ elim (Bool-cases (leb t.max_players (count_where (is_seat_of id) db.players))) [
      | inl l ↦ rw (join, e, o, s, l) (few, once)
      | inr l ↦
          rw (join, e, o, s, l)
            (
              one_more t.max_players id user db.players l,
              first_seat id user other db.players s once,
            )
    ]
  ]
]
