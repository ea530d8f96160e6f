-- ===== src/Tournament/Results.antt =====
-- A match without players (`reportResult` and `advanceRound` of
-- Chess-Backend/src/models/Tournament.js).
use end_to_end_kubernetes_ch.Base.{
  ℕ, suc, ◌≡◌, ◌∙◌, refl, sym, ap, subst, inl, inr, Bool, true, false, not, Option, none, some,
  List, [], ◌∷◌, ◌++◌, arith, ◌==◌, ◌&&◌, find, filter, any, Bool-cases, Option-cases,
}
use end_to_end_kubernetes_ch.Store.{count_where, update_where, is_some}
use end_to_end_kubernetes_ch.Store.Settled.{some_pair-inj}
use end_to_end_kubernetes_ch.Tournament.{
  MatchRow, Cups, Answer, has_id, is_running, is_pending, in_round, has_place, insert_match,
  pair_winners, next_round, advance_round, plays, has_match_id, is_undecided, decide, report_result,
}

-- A pending match of the round that nobody plays.
abbrev pub is_ghost : ℕ → ℕ → MatchRow → Bool
is_ghost id round m =
    in_round id round m
    && is_pending m.status
    && not (is_some m.player1_id)
    && not (is_some m.player2_id)

abbrev pub HasGhost : ℕ → ℕ → Cups → Type 0
HasGhost id round db = any (is_ghost id round) db.matches ≡ true

any-append :
    (p : MatchRow → Bool) (xs ys : List MatchRow) → any p xs ≡ true → any p (xs ++ ys) ≡ true
any-append p [] ys h = cc
any-append p (x ∷ xs) ys h = ground (arith, any-append p xs ys)

insert_match-HasGhost :
    (id round i r place : ℕ) (p q : Option ℕ) (db : Cups)
    → HasGhost id round db
    → HasGhost id round (insert_match i r place p q db)
unfolding insert_match
insert_match-HasGhost id round i r place p q db h =
    elim (Bool-cases (any (has_place i r place) db.matches)) [
      | inl e ↦ simp (insert_match, e) h
      | inr e ↦ simp (insert_match, e) (any-append (is_ghost id round) db.matches _ h)
    ]

pair_winners-HasGhost :
    (id round i r place : ℕ) (ws : List (Option ℕ)) (db : Cups)
    → HasGhost id round db
    → HasGhost id round (pair_winners i r place ws db)
unfolding pair_winners
pair_winners-HasGhost id round i r place [] db h = h
pair_winners-HasGhost id round i r place (w ∷ []) db h =
    insert_match-HasGhost id round i r place w none db h
pair_winners-HasGhost id round i r place (w ∷ v ∷ ws) db h =
    pair_winners-HasGhost id round i r (suc place) ws (insert_match i r place w v db)
      (insert_match-HasGhost id round i r place w v db h)

next_round-HasGhost :
    (id round i r : ℕ) (ms : List MatchRow) (db : Cups)
    → HasGhost id round db
    → HasGhost id round (next_round i r ms db)
unfolding next_round
next_round-HasGhost id round i r [] db h = h
next_round-HasGhost id round i r (m ∷ []) db h = h
next_round-HasGhost id round i r (m ∷ n ∷ ms) db h =
    pair_winners-HasGhost id round i (suc r) 0 _ db h

advance_round-HasGhost :
    (id round i r : ℕ) (db : Cups) → HasGhost id round db → HasGhost id round (advance_round i r db)
unfolding advance_round
advance_round-HasGhost id round i r db h = elim (Option-cases (find (has_id i) db.tournaments)) [
  | inl e ↦ rw (advance_round, e) h
  | inr (t, e) ↦ elim (Bool-cases (is_running t.status)) [
    | inr k ↦ rw (advance_round, e, k) h
    | inl k ↦
        elim (Bool-cases
          (any (λ (m : MatchRow). is_pending m.status) (filter (in_round i r) db.matches))) [
            | inl l ↦ rw (advance_round, e, k, l) h
            | inr l ↦ rw (advance_round, e, k, l) (next_round-HasGhost id round i r _ db h)
          ]
  ]
]

-- A result is not written to a match without players.
none_undecided :
    (i winner : ℕ) (xs : List MatchRow)
    → count_where (is_undecided i) xs ≡ 0
    → update_where (is_undecided i) (decide winner) xs ≡ xs
none_undecided i winner [] h = refl
none_undecided i winner (x ∷ xs) h = elim (Bool-cases (is_undecided i x)) [
  | inl e ↦ absurd (ground (arith, e))
  | inr e ↦ rw e (ap (λ t. x ∷ t) (none_undecided i winner xs (ground (arith, e))))
]

played_no_ghost :
    (id round winner : ℕ) (m : MatchRow) → plays winner m ≡ true → is_ghost id round m ≡ false
played_no_ghost id round winner m e = ground arith

pub decide-HasGhost :
    (id round i winner : ℕ) (xs : List MatchRow) (m : MatchRow)
    → find (has_match_id i) xs ≡ some m
    → is_pending m.status ≡ true
    → plays winner m ≡ true
    → count_where (is_undecided i) xs ≡ 1
    → any (is_ghost id round) xs ≡ true
    → any (is_ghost id round) (update_where (is_undecided i) (decide winner) xs) ≡ true
decide-HasGhost id round i winner [] m f k l c h = cc
decide-HasGhost id round i winner (x ∷ xs) m f k l c h = elim (Bool-cases (has_match_id i x)) [
  | inl e ↦
      let xm : x ≡ m = ap (λ o. elim o [ none ↦ x | some y ↦ y ]) (rw e at f) in
      let open_x : is_undecided i x ≡ true =
        rw (e, ap (λ (y : MatchRow). is_pending y.status) xm ∙ k) refl in
      let rest : count_where (is_undecided i) xs ≡ 0 = ground (arith, open_x) in
      let off : is_ghost id round x ≡ false =
        played_no_ghost id round winner x (ap (plays winner) xm ∙ l) in
      let more : any (is_ghost id round) xs ≡ true = rw off at h in
      rw (open_x, none_undecided i winner xs rest) (ground (arith, more))
  | inr e ↦
      let count : count_where (is_undecided i) xs ≡ 1 = ground (arith, rw e at c) in
      rw e (elim (Bool-cases (is_ghost id round x)) [
        | inl g ↦ rw g refl
        | inr g ↦ rw g (decide-HasGhost id round i winner xs m (rw e at f) k l count (rw g at h))
      ])
]

pub report_result-HasGhost :
    (id round i reporter winner : ℕ) (db db' : Cups) (a : Answer)
    → report_result i reporter winner db ≡ some (db', a)
    → HasGhost id round db
    → HasGhost id round db'
unfolding report_result
report_result-HasGhost id round i reporter winner db db' a h g =
    elim (Option-cases (find (has_match_id i) db.matches)) [
      | inl e ↦ subst (HasGhost id round) (sym (some_pair-inj (rw (report_result, e) at h)).0) g
      | inr (m, e) ↦ elim (Bool-cases (is_pending m.status)) [
        | inr k ↦
            subst (HasGhost id round) (sym (some_pair-inj (rw (report_result, e, k) at h)).0) g
        | inl k ↦ elim (Bool-cases (plays winner m)) [
          | inr l ↦
              subst (HasGhost id round) (sym (some_pair-inj (rw (report_result, e, k, l) at h)).0) g
          | inl l ↦ elim (Bool-cases (plays reporter m)) [
            | inr n ↦
                subst (HasGhost id round)
                  (sym (some_pair-inj (rw (report_result, e, k, l, n) at h)).0) g
            | inl n ↦ elim (Bool-cases (count_where (is_undecided i) db.matches == 1)) [
              | inr c ↦ absurd (cc (rw (report_result, e, k, l, n, c) at h))
              | inl c ↦
                  subst (HasGhost id round)
                    (sym (some_pair-inj (rw (report_result, e, k, l, n, c) at h)).0)
                    (advance_round-HasGhost id round m.tournament_id m.round _
                      (decide-HasGhost id round i winner db.matches m e k l (ground (arith, c)) g))
            ]
          ]
        ]
      ]
    ]

-- A report: the match, who reports, and the winner.
abbrev pub Report : Type 0
Report = ℕ × ℕ × ℕ

-- Reports, one after the other; one that throws changes nothing.
unfoldable pub report_all : List Report → Cups → Cups
report_all [] db = db
report_all (r ∷ rs) db =
    report_all rs (elim (report_result r.0 r.1 r.2 db) as (λ o. Cups) [ none ↦ db | some x ↦ x.0 ])

ghost_pending :
    (id round : ℕ) (xs : List MatchRow)
    → any (is_ghost id round) xs ≡ true
    → any (λ (m : MatchRow). is_pending m.status) (filter (in_round id round) xs) ≡ true
ghost_pending id round [] h = cc
ghost_pending id round (x ∷ xs) h = elim (Bool-cases (in_round id round x)) [
  | inl e ↦ elim (Bool-cases (is_pending x.status)) [
    | inl k ↦ rw (e, k) refl
    | inr k ↦ rw (e, k) (ghost_pending id round xs (ground (arith, h, e, k)))
  ]
  | inr e ↦ rw e (ghost_pending id round xs (ground (arith, h, e)))
]

pub advance_round-ghost :
    (id round : ℕ) (db : Cups) → HasGhost id round db → advance_round id round db ≡ db
unfolding advance_round
advance_round-ghost id round db g = elim (Option-cases (find (has_id id) db.tournaments)) [
  | inl e ↦ rw (advance_round, e) refl
  | inr (t, e) ↦ elim (Bool-cases (is_running t.status)) [
    | inr k ↦ rw (advance_round, e, k) refl
    | inl k ↦ rw (advance_round, e, k, ghost_pending id round db.matches g) refl
  ]
]
