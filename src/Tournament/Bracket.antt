-- ===== src/Tournament/Bracket.antt =====
-- Who plays in the first round that `start` of Chess-Backend/src/models/Tournament.js lays out.
use end_to_end_kubernetes_ch.Base.{
  ℕ, zero, suc, ◌+◌, ◌-◌, ◌≡◌, ◌∙◌, refl, sym, ap, inl, inr, Bool, true, false, Option, none, some,
  List, [], ◌∷◌, ◌++◌, map, ◌==◌, ltb, if◌then◌else◌, find, filter, any, length, arith, Bool-cases,
  Option-cases,
}
use end_to_end_kubernetes_ch.Store.{update_where, count_where}
use end_to_end_kubernetes_ch.Tournament.{
  MatchRow, Cups, started, has_id, in_round, next_pow2, has_place, insert_match, pair_winners,
  next_round, is_running, is_pending, pending, is_open_phase, is_seat_of, same_id, advance_round,
}
use end_to_end_kubernetes_ch.Tournament.Start.{
  shuffle, fill, first_match, lay_out, users_of, is_open_id, begin, start,
}
use end_to_end_kubernetes_ch.Tournament.Shuffled.{count_where-shuffle_from}

abbrev pub is_user : ℕ → ℕ → Bool
is_user user u = u == user

count_where-some :
    (user : ℕ) (us : List ℕ)
    → count_where (same_id user) (map some us) ≡ count_where (is_user user) us
count_where-some user [] = refl
count_where-some user (u ∷ us) =
    ap (λ n. (if u == user then 1 else 0) + n) (count_where-some user us)

count_where-append_none :
    (user : ℕ) (ps : List (Option ℕ))
    → count_where (same_id user) (ps ++ none ∷ []) ≡ count_where (same_id user) ps
count_where-append_none user [] = refl
count_where-append_none user (q ∷ ps) = omega (arith, count_where-append_none user ps)

count_where-fill :
    (user fuel : ℕ) (ps : List (Option ℕ))
    → count_where (same_id user) (fill fuel ps) ≡ count_where (same_id user) ps
unfolding fill
count_where-fill user zero ps = refl
count_where-fill user (suc fuel) ps = elim (Bool-cases (ltb (length ps) (next_pow2 (length ps)))) [
  | inl e ↦
      ap (λ b. count_where (same_id user) (if b then fill fuel (ps ++ none ∷ []) else ps)) e
      ∙ count_where-fill user fuel (ps ++ none ∷ [])
      ∙ count_where-append_none user ps
  | inr e ↦ ap (λ b. count_where (same_id user) (if b then fill fuel (ps ++ none ∷ []) else ps)) e
]

-- The places of a user in matches, both sides counted
abbrev pub slots : ℕ → List MatchRow → ℕ
slots user [] = 0
slots user (m ∷ ms) =
    (if same_id user m.player1_id then 1 else 0)
    + (if same_id user m.player2_id then 1 else 0)
    + slots user ms

slots-append :
    (user id round : ℕ) (xs ys : List MatchRow)
    → slots user (filter (in_round id round) (xs ++ ys))
      ≡ slots user (filter (in_round id round) xs) + slots user (filter (in_round id round) ys)
slots-append user id round [] ys = omega arith
slots-append user id round (x ∷ xs) ys = elim (Bool-cases (in_round id round x)) [
  | inl e ↦ rw e (omega (arith, slots-append user id round xs ys))
  | inr e ↦ rw e (slots-append user id round xs ys)
]

in_first_round :
    (serial id place : ℕ) (q r : Option ℕ) → in_round id 1 (first_match serial id place q r) ≡ true
in_first_round serial id place q r = ground arith

slots-first_match :
    (user serial id place : ℕ) (q r : Option ℕ)
    → slots user (filter (in_round id 1) (first_match serial id place q r ∷ []))
      ≡ count_where (same_id user) (q ∷ r ∷ [])
slots-first_match user serial id place q r = rw (in_first_round serial id place q r) (omega arith)

slots-lay_out :
    (user id place : ℕ) (ps : List (Option ℕ)) (db : Cups)
    → slots user (filter (in_round id 1) (lay_out id place ps db).matches)
      ≡ slots user (filter (in_round id 1) db.matches) + count_where (same_id user) ps
unfolding lay_out
slots-lay_out user id place [] db = omega arith
slots-lay_out user id place (q ∷ []) db =
    slots-append user id 1 db.matches _
    ∙ omega (arith, slots-first_match user db.next_id id place q none)
slots-lay_out user id place (q ∷ r ∷ ps) db =
    slots-lay_out user id (suc place) ps (record db {
      matches = db.matches ++ first_match db.next_id id place q r ∷ [];
      next_id = suc db.next_id;
    })
    ∙ omega (
      arith,
      slots-append user id 1 db.matches (first_match db.next_id id place q r ∷ []),
      slots-first_match user db.next_id id place q r,
    )

not_first_round : (id : ℕ) (m : MatchRow) → m.round ≡ 2 → in_round id 1 m ≡ false
not_first_round id m e = ground (arith, e)

slots-second_round :
    (user id : ℕ) (m : MatchRow) → m.round ≡ 2 → slots user (filter (in_round id 1) (m ∷ [])) ≡ 0
slots-second_round user id m e =
    ap (λ b. slots user (if b then m ∷ [] else [])) (not_first_round id m e)

slots-insert_match :
    (user id place : ℕ) (q r : Option ℕ) (db : Cups)
    → slots user (filter (in_round id 1) (insert_match id 2 place q r db).matches)
      ≡ slots user (filter (in_round id 1) db.matches)
unfolding insert_match
slots-insert_match user id place q r db =
    let new : MatchRow = record {
      id = db.next_id;
      tournament_id = id;
      round = 2;
      place = place;
      player1_id = q;
      player2_id = r;
      winner_id = none;
      status = pending;
    } in
    elim (Bool-cases (any (has_place id 2 place) db.matches)) [
      | inl e ↦ rw (insert_match, e) refl
      | inr e ↦
          rw (insert_match, e)
            (omega (
              arith,
              slots-append user id 1 db.matches (new ∷ []),
              slots-second_round user id new refl,
            ))
    ]

slots-pair_winners :
    (user id place : ℕ) (ws : List (Option ℕ)) (db : Cups)
    → slots user (filter (in_round id 1) (pair_winners id 2 place ws db).matches)
      ≡ slots user (filter (in_round id 1) db.matches)
unfolding pair_winners
slots-pair_winners user id place [] db = refl
slots-pair_winners user id place (w ∷ []) db = slots-insert_match user id place w none db
slots-pair_winners user id place (w ∷ v ∷ ws) db =
    slots-pair_winners user id (suc place) ws (insert_match id 2 place w v db)
    ∙ slots-insert_match user id place w v db

slots-next_round :
    (user id : ℕ) (ms : List MatchRow) (db : Cups)
    → slots user (filter (in_round id 1) (next_round id 1 ms db).matches)
      ≡ slots user (filter (in_round id 1) db.matches)
unfolding next_round
slots-next_round user id [] db = refl
slots-next_round user id (m ∷ []) db = refl
slots-next_round user id (m ∷ n ∷ ms) db = slots-pair_winners user id 0 _ db

slots-advance_round :
    (user id : ℕ) (db : Cups)
    → slots user (filter (in_round id 1) (advance_round id 1 db).matches)
      ≡ slots user (filter (in_round id 1) db.matches)
unfolding advance_round
slots-advance_round user id db = elim (Option-cases (find (has_id id) db.tournaments)) [
  | inl e ↦ rw (advance_round, e) refl
  | inr (t, e) ↦ elim (Bool-cases (is_running t.status)) [
    | inr f ↦ rw (advance_round, e, f) refl
    | inl f ↦
        elim (Bool-cases
          (any (λ (m : MatchRow). is_pending m.status) (filter (in_round id 1) db.matches))) [
            | inl g ↦ rw (advance_round, e, f, g) refl
            | inr g ↦
                rw (advance_round, e, f, g)
                  (slots-next_round user id (filter (in_round id 1) db.matches) db)
          ]
  ]
]

-- The bracket, before the tournament is set to in_progress
abbrev laid_out : (ℕ → ℕ) → ℕ → Cups → Cups
laid_out draws id db =
    let users = map some (shuffle draws (users_of (filter (is_seat_of id) db.players))) in
    lay_out id 0 (fill (next_pow2 (length users)) users) db

slots-laid_out :
    (draws : ℕ → ℕ) (id user : ℕ) (db : Cups)
    → filter (in_round id 1) db.matches ≡ []
    → slots user (filter (in_round id 1) (laid_out draws id db).matches)
      ≡ count_where (is_user user) (users_of (filter (is_seat_of id) db.players))
unfolding shuffle
slots-laid_out draws id user db none_yet =
    let users = users_of (filter (is_seat_of id) db.players) in
    let drawn = shuffle draws users in
    slots-lay_out user id 0 (fill (next_pow2 (length (map some drawn))) (map some drawn)) db
    ∙ ap
        (λ ms.
          slots user ms
          + count_where (same_id user)
              (fill (next_pow2 (length (map some drawn))) (map some drawn)))
        none_yet
    ∙ omega (
      arith,
      count_where-fill user (next_pow2 (length (map some drawn))) (map some drawn),
      count_where-some user drawn,
      count_where-shuffle_from (is_user user) draws (length users - 1) users,
    )

start-laid_out :
    (draws : ℕ → ℕ) (id requester : ℕ) (db after : Cups)
    → start draws id requester db ≡ some (after, started)
    → after
      ≡ advance_round id 1 (record (laid_out draws id db) {
        tournaments = update_where (is_open_id id) begin (laid_out draws id db).tournaments;
      })
unfolding start
start-laid_out draws id requester db after h =
    elim (Option-cases (find (has_id id) db.tournaments)) [
      | inl e ↦ absurd (cc (rw (start, e) at h))
      | inr (t, e) ↦ elim (Bool-cases (t.creator_id == requester)) [
        | inr f ↦ absurd (cc (rw (start, e, f) at h))
        | inl f ↦ elim (Bool-cases (is_open_phase t.status)) [
          | inr g ↦ absurd (cc (rw (start, e, f, g) at h))
          | inl g ↦ elim (Bool-cases (ltb (length (filter (is_seat_of id) db.players)) 2)) [
            | inl k ↦ absurd (cc (rw (start, e, f, g, k) at h))
            | inr k ↦
                elim (Bool-cases
                  (count_where (is_open_id id) (laid_out draws id db).tournaments == 1)) [
                    | inr l ↦ absurd (cc (rw (start, e, f, g, k, l) at h))
                    | inl l ↦ sym (
                        ap (λ o. elim o [ none ↦ after | some r ↦ r.0 ])
                          (rw (start, e, f, g, k, l) at h))
                  ]
          ]
        ]
      ]
    ]

-- A start that succeeds seats everybody: in the matches of the first round, which there were none of,
-- every user has exactly as many places as joined the tournament under its id, whatever the shuffle
-- drew and however many byes fill the bracket.
pub start-slots :
    (draws : ℕ → ℕ) (id requester user : ℕ) (db after : Cups)
    → filter (in_round id 1) db.matches ≡ []
    → start draws id requester db ≡ some (after, started)
    → slots user (filter (in_round id 1) after.matches)
      ≡ count_where (is_user user) (users_of (filter (is_seat_of id) db.players))
start-slots draws id requester user db after none_yet h =
    let laid = laid_out draws id db in
    ap (λ (c : Cups). slots user (filter (in_round id 1) c.matches))
      (start-laid_out draws id requester db after h)
    ∙ slots-advance_round user id
        (record laid { tournaments = update_where (is_open_id id) begin laid.tournaments })
    ∙ slots-laid_out draws id user db none_yet
