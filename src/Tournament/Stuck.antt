-- ===== src/Tournament/Stuck.antt =====
-- A tournament with a match without players (`reportResult` and `advanceRound` of
-- Chess-Backend/src/models/Tournament.js).
use end_to_end_kubernetes_ch.Base.{
  ℕ, suc, ◌≡◌, ◌∙◌, refl, sym, ap, subst, inl, inr, Bool, true, false, not, Option, none, some,
  List, [], ◌∷◌, ◌++◌, arith, ◌==◌, ◌&&◌, find, filter, any, Bool-cases, Option-cases,
}
use end_to_end_kubernetes_ch.Store.{count_where, update_where}
use end_to_end_kubernetes_ch.Store.Settled.{some_pair-inj}
use end_to_end_kubernetes_ch.Tournament.{
  TournamentRow, MatchRow, Cups, Answer, has_id, is_running, is_running_id, crown, is_pending,
  in_round, has_place, insert_match, pair_winners, next_round, advance_round, plays, has_match_id,
  is_undecided, decide, report_result,
}
use end_to_end_kubernetes_ch.Tournament.Results.{
  HasGhost, Report, report_all, advance_round-ghost, report_result-HasGhost, decide-HasGhost,
}

-- A match of the tournament in another round.
abbrev pub is_elsewhere : ℕ → ℕ → MatchRow → Bool
is_elsewhere id round m = m.tournament_id == id && not (m.round == round)

-- All matches of the tournament are in the round, and its row is the given one.
abbrev pub Kept : ℕ → ℕ → Option TournamentRow → Cups → Type 0
Kept id round o db =
    (any (is_elsewhere id round) db.matches ≡ false) × (find (has_id id) db.tournaments ≡ o)

none_last :
    (p : MatchRow → Bool) (xs : List MatchRow) (x : MatchRow)
    → any p xs ≡ false
    → p x ≡ false
    → any p (xs ++ x ∷ []) ≡ false
none_last p [] x h e = rw e refl
none_last p (y ∷ xs) x h e = ground (arith, h, e, none_last p xs x)

insert_match-Kept :
    (id round i r place : ℕ) (p q : Option ℕ) (o : Option TournamentRow) (db : Cups)
    → (i == id) ≡ false
    → Kept id round o db
    → Kept id round o (insert_match i r place p q db)
unfolding insert_match
insert_match-Kept id round i r place p q o db ne (h, f) =
    elim (Bool-cases (any (has_place i r place) db.matches)) [
      | inl e ↦ rw (insert_match, e) (h, f)
      | inr e ↦
          rw (insert_match, e)
            (none_last (is_elsewhere id round) db.matches _ h (ground (arith, ne)), f)
    ]

pair_winners-Kept :
    (id round i r place : ℕ) (ws : List (Option ℕ)) (o : Option TournamentRow) (db : Cups)
    → (i == id) ≡ false
    → Kept id round o db
    → Kept id round o (pair_winners i r place ws db)
unfolding pair_winners
pair_winners-Kept id round i r place [] o db ne h = h
pair_winners-Kept id round i r place (w ∷ []) o db ne h =
    insert_match-Kept id round i r place w none o db ne h
pair_winners-Kept id round i r place (w ∷ v ∷ ws) o db ne h =
    pair_winners-Kept id round i r (suc place) ws o (insert_match i r place w v db) ne
      (insert_match-Kept id round i r place w v o db ne h)

-- Another tournament is crowned.
crown-find :
    (id i : ℕ) (winner : Option ℕ) (ts : List TournamentRow)
    → (i == id) ≡ false
    → find (has_id id) (update_where (is_running_id i) (crown winner) ts) ≡ find (has_id id) ts
crown-find id i winner [] ne = refl
crown-find id i winner (t ∷ ts) ne = elim (Bool-cases (has_id id t)) [
  | inl e ↦ let off : is_running_id i t ≡ false = ground (arith, e, ne) in rw (off, e) refl
  | inr e ↦ elim (Bool-cases (is_running_id i t)) [
    | inl k ↦ rw (k, e) (crown-find id i winner ts ne)
    | inr k ↦ rw (k, e) (crown-find id i winner ts ne)
  ]
]

next_round-Kept :
    (id round i r : ℕ) (ms : List MatchRow) (o : Option TournamentRow) (db : Cups)
    → (i == id) ≡ false
    → Kept id round o db
    → Kept id round o (next_round i r ms db)
unfolding next_round
next_round-Kept id round i r [] o db ne h = h
next_round-Kept id round i r (m ∷ []) o db ne (h, f) =
    (h, crown-find id i m.winner_id db.tournaments ne ∙ f)
next_round-Kept id round i r (m ∷ n ∷ ms) o db ne h =
    pair_winners-Kept id round i (suc r) 0 _ o db ne h

advance_round-Kept :
    (id round i r : ℕ) (o : Option TournamentRow) (db : Cups)
    → (i == id) ≡ false
    → Kept id round o db
    → Kept id round o (advance_round i r db)
unfolding advance_round
advance_round-Kept id round i r o db ne h = elim (Option-cases (find (has_id i) db.tournaments)) [
  | inl e ↦ rw (advance_round, e) h
  | inr (t, e) ↦ elim (Bool-cases (is_running t.status)) [
    | inr k ↦ rw (advance_round, e, k) h
    | inl k ↦
        elim (Bool-cases
          (any (λ (m : MatchRow). is_pending m.status) (filter (in_round i r) db.matches))) [
            | inl l ↦ rw (advance_round, e, k, l) h
            | inr l ↦ rw (advance_round, e, k, l) (next_round-Kept id round i r _ o db ne h)
          ]
  ]
]

decide-elsewhere :
    (id round i winner : ℕ) (xs : List MatchRow)
    → any (is_elsewhere id round) xs ≡ false
    → any (is_elsewhere id round) (update_where (is_undecided i) (decide winner) xs) ≡ false
decide-elsewhere id round i winner [] h = h
decide-elsewhere id round i winner (x ∷ xs) h = elim (Bool-cases (is_undecided i x)) [
  | inl e ↦ rw e (ground (arith, h, decide-elsewhere id round i winner xs))
  | inr e ↦ rw e (ground (arith, h, decide-elsewhere id round i winner xs))
]

-- A match of the tournament that is found is in the round.
found_in_round :
    (id round i : ℕ) (xs : List MatchRow) (m : MatchRow)
    → any (is_elsewhere id round) xs ≡ false
    → find (has_match_id i) xs ≡ some m
    → (m.tournament_id == id) ≡ true
    → m.round ≡ round
found_in_round id round i [] m h f e = cc
found_in_round id round i (x ∷ xs) m h f e = elim (Bool-cases (has_match_id i x)) [
  | inl k ↦
      let xm : x ≡ m = ap (λ o. elim o [ none ↦ x | some y ↦ y ]) (rw k at f) in
      ground (arith, h, rw xm at h, e)
  | inr k ↦ found_in_round id round i xs m (ground (arith, h)) (rw k at f) e
]

-- A result of the tournament itself leaves it in the round, and one of another does not touch it.
advance-Kept :
    (id round i winner : ℕ) (m : MatchRow) (o : Option TournamentRow) (db : Cups)
    → find (has_match_id i) db.matches ≡ some m
    → Kept id round o db
    → HasGhost id round
        (record db { matches = update_where (is_undecided i) (decide winner) db.matches })
    → Kept id round o (
        advance_round m.tournament_id m.round
          (record db { matches = update_where (is_undecided i) (decide winner) db.matches }))
advance-Kept id round i winner m o db e (h, f) g =
    let next : Cups = record db {
      matches = update_where (is_undecided i) (decide winner) db.matches;
    } in
    let k : Kept id round o next = (decide-elsewhere id round i winner db.matches h, f) in
    elim (Bool-cases (m.tournament_id == id)) [
      | inr n ↦ advance_round-Kept id round m.tournament_id m.round o next n k
      | inl y ↦
          let same : m.tournament_id ≡ id = ground (arith, y) in
          rw
            (
              same,
              found_in_round id round i db.matches m h e y,
              advance_round-ghost id round next g,
            )
            k
    ]

report_result-Kept :
    (id round i reporter winner : ℕ) (o : Option TournamentRow) (db db' : Cups) (a : Answer)
    → report_result i reporter winner db ≡ some (db', a)
    → HasGhost id round db
    → Kept id round o db
    → Kept id round o db'
unfolding report_result
report_result-Kept id round i reporter winner o db db' a h g w =
    elim (Option-cases (find (has_match_id i) db.matches)) [
      | inl e ↦ subst (Kept id round o) (sym (some_pair-inj (rw (report_result, e) at h)).0) w
      | inr (m, e) ↦ elim (Bool-cases (is_pending m.status)) [
        | inr k ↦ subst (Kept id round o) (sym (some_pair-inj (rw (report_result, e, k) at h)).0) w
        | inl k ↦ elim (Bool-cases (plays winner m)) [
          | inr l ↦
              subst (Kept id round o) (sym (some_pair-inj (rw (report_result, e, k, l) at h)).0) w
          | inl l ↦ elim (Bool-cases (plays reporter m)) [
            | inr n ↦
                subst (Kept id round o)
                  (sym (some_pair-inj (rw (report_result, e, k, l, n) at h)).0) w
            | inl n ↦ elim (Bool-cases (count_where (is_undecided i) db.matches == 1)) [
              | inr c ↦ absurd (cc (rw (report_result, e, k, l, n, c) at h))
              | inl c ↦
                  subst (Kept id round o)
                    (sym (some_pair-inj (rw (report_result, e, k, l, n, c) at h)).0)
                    (advance-Kept id round i winner m o db e w
                      (decide-HasGhost id round i winner db.matches m e k l (ground (arith, c)) g))
            ]
          ]
        ]
      ]
    ]

-- A tournament all of whose matches are in one round, one of them pending and without players: whatever
-- results are reported, of this tournament and of others, in any number and order, that match stays
-- pending, the tournament gets no match in another round, and its row stays as it was, so that one in
-- progress stays in progress and without a winner.
pub report_all-stuck :
    (id round : ℕ) (rs : List Report) (o : Option TournamentRow) (db : Cups)
    → HasGhost id round db
    → Kept id round o db
    → HasGhost id round (report_all rs db) × Kept id round o (report_all rs db)
unfolding report_all
report_all-stuck id round [] o db g k = (g, k)
report_all-stuck id round (r ∷ rs) o db g k = elim (Option-cases (report_result r.0 r.1 r.2 db)) [
  | inl e ↦ rw (report_all, e) (report_all-stuck id round rs o db g k)
  | inr (x, e) ↦
      rw (report_all, e)
        (report_all-stuck id round rs o x.0
          (report_result-HasGhost id round r.0 r.1 r.2 db x.0 x.1 e g)
          (report_result-Kept id round r.0 r.1 r.2 o db x.0 x.1 e g k))
]
