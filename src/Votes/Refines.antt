-- ===== src/Votes/Refines.antt =====
-- Both backends of Chess-Backend/src/services/rematchVotes.js implement the set of votes that the
-- handlers of the rooms use.
use end_to_end_kubernetes_ch.Base.{
  ℕ, ◌<◌, ◌≡◌, ◌∙◌, refl, sym, ap, ap₂, inl, inr, true, false, List, [], ◌∷◌, arith, ◌==◌, ◌&&◌,
  ◌||◌, All, Bool-cases,
}
use end_to_end_kubernetes_ch.Rooms.Rematch.{has_vote, add_vote, vote_count}
use end_to_end_kubernetes_ch.Votes.{
  counted, carried_out, refused, Call, adds, removes, clears, local_call, answers, vote_call,
}
use end_to_end_kubernetes_ch.Votes.Valkey.{
  Valkey, rematch_ttl_seconds, redis_add, redis_remove, redis_clear, redis_call, Serves,
}
use end_to_end_kubernetes_ch.Votes.Counts.{
  Distinct, has_vote-add_vote, vote_count-add_vote, has_vote-remove_vote, vote_count-remove_vote,
  has_vote-clear_votes, vote_count-clear_votes, Distinct-filter, Distinct-add_vote,
}
use end_to_end_kubernetes_ch.Votes.LocalSets.{answers-local}

-- The local backend would also take a vote back from a user whose id is 0, which there never is.
abbrev pub HasUser : Call → Type 0
HasUser (adds g u) = Unit {0}
HasUser (removes g u) = 0 < u
HasUser (clears g) = Unit {0}

module _ (valkey : Valkey) (serves : Serves valkey) where
  open valkey use {Db}
  open serves use {member, size}

  -- The database has the votes of every game.
  abbrev pub Shows : Db → List (ℕ × ℕ) → Type 0
  Shows db votes =
      Distinct votes
      × ((j v : ℕ) → member j v db ≡ has_vote j v votes)
      × ((j : ℕ) → size j db ≡ vote_count j votes)

  redis_add-eq :
      (g u : ℕ) (db : Db)
      → (g == 0) ≡ false
      → (u == 0) ≡ false
      → redis_add valkey g u db ≡ (
        (valkey.expire g rematch_ttl_seconds (valkey.sadd g u db).0).0,
        counted (size g (valkey.expire g rematch_ttl_seconds (valkey.sadd g u db).0).0),
      )
  unfolding redis_add
  redis_add-eq g u db e l = simp (
    redis_add,
    e,
    l,
    serves.sadd_answers g u db,
    serves.expire_answers g rematch_ttl_seconds (valkey.sadd g u db).0,
    serves.scard_answers g (valkey.expire g rematch_ttl_seconds (valkey.sadd g u db).0).0,
  )

  redis_add-refused :
      (g u : ℕ) (db : Db) → (g == 0 || u == 0) ≡ true → redis_add valkey g u db ≡ (db, refused)
  unfolding redis_add
  redis_add-refused g u db h = elim (Bool-cases (g == 0)) [
    | inl e ↦ simp (redis_add, e)
    | inr e ↦ let l : (u == 0) ≡ true = ground (arith, e, h) in simp (redis_add, e, l)
  ]

  -- The database after the commands of an accepted vote.
  voted-Shows :
      (g u : ℕ) (db : Db) (votes : List (ℕ × ℕ))
      → Shows db votes
      → Shows (valkey.expire g rematch_ttl_seconds (valkey.sadd g u db).0).0 (add_vote g u votes)
  voted-Shows g u db votes (d, h, n) = (
    Distinct-add_vote g u votes d,
    λ j v.
        serves.member-expire g rematch_ttl_seconds j v (valkey.sadd g u db).0
        ∙ serves.member-sadd g u j v db
        ∙ ap (λ b. g == j && u == v || b) (h j v)
        ∙ sym (has_vote-add_vote g u votes j v),
    λ j. ground (
      arith,
      n j,
      h g u,
      serves.size-expire g rematch_ttl_seconds j (valkey.sadd g u db).0,
      serves.size-sadd g u j db,
      vote_count-add_vote g u votes j,
    ),
  )

  redis_add-Shows :
      (g u : ℕ) (db : Db) (votes : List (ℕ × ℕ))
      → Shows db votes
      → ((redis_add valkey g u db).1 ≡ (vote_call (adds g u) votes).1)
        × Shows (redis_add valkey g u db).0 (vote_call (adds g u) votes).0
  redis_add-Shows g u db votes s = elim (Bool-cases (g == 0)) [
    | inl e ↦ rw (redis_add-refused g u db (ground (arith, e)), e) (refl, s)
    | inr e ↦ elim (Bool-cases (u == 0)) [
      | inl l ↦ rw (redis_add-refused g u db (ground (arith, l)), e, l) (refl, s)
      | inr l ↦
          let after = voted-Shows g u db votes s in
          rw (redis_add-eq g u db e l, e, l) (ap counted (after.2 g), after)
    ]
  ]

  redis_remove-Shows :
      (g u : ℕ) (db : Db) (votes : List (ℕ × ℕ))
      → 0 < u
      → Shows db votes
      → ((redis_remove valkey g u db).1 ≡ (vote_call (removes g u) votes).1)
        × Shows (redis_remove valkey g u db).0 (vote_call (removes g u) votes).0
  unfolding redis_remove
  redis_remove-Shows g u db votes pos (d, h, n) =
      let l : (u == 0) ≡ false = ground (arith, pos) in
      elim (Bool-cases (g == 0)) [
        | inl e ↦ rw (redis_remove, e) (refl, (d, h, n))
        | inr e ↦
            rw (redis_remove, e, l)
              (
                ap carried_out (serves.srem_answers g u db),
                (
                  Distinct-filter _ votes d,
                  λ j v. ground (
                    arith,
                    h j v,
                    serves.member-srem g u j v db,
                    has_vote-remove_vote g u votes j v,
                  ),
                  λ j. ground (
                    arith,
                    n j,
                    h g u,
                    serves.size-srem g u j db,
                    vote_count-remove_vote g u votes j d,
                  ),
                ),
              )
      ]

  redis_clear-Shows :
      (g : ℕ) (db : Db) (votes : List (ℕ × ℕ))
      → Shows db votes
      → ((redis_clear valkey g db).1 ≡ (vote_call (clears g) votes).1)
        × Shows (redis_clear valkey g db).0 (vote_call (clears g) votes).0
  unfolding redis_clear
  redis_clear-Shows g db votes (d, h, n) = elim (Bool-cases (g == 0)) [
    | inl e ↦ rw (redis_clear, e) (refl, (d, h, n))
    | inr e ↦
        rw (redis_clear, e)
          (
            ap carried_out (serves.del_answers g db),
            (
              Distinct-filter _ votes d,
              λ j v.
                  ground
                    (arith, h j v, serves.member-del g j v db, has_vote-clear_votes g votes j v),
              λ j. ground (arith, n j, serves.size-del g j db, vote_count-clear_votes g votes j),
            ),
          )
  ]

  answers-redis :
      (cs : List Call) (db : Db) (votes : List (ℕ × ℕ))
      → All HasUser cs
      → Shows db votes
      → answers (redis_call valkey) cs db ≡ answers vote_call cs votes
  answers-redis [] db votes u s = refl
  answers-redis (adds g w ∷ cs) db votes (_, u) s =
      let (e, k) = redis_add-Shows g w db votes s in
      ap₂ (λ a b. a ∷ b) e (answers-redis cs (redis_add valkey g w db).0 _ u k)
  answers-redis (removes g w ∷ cs) db votes (p, u) s =
      let (e, k) = redis_remove-Shows g w db votes p s in
      ap₂ (λ a b. a ∷ b) e (answers-redis cs (redis_remove valkey g w db).0 _ u k)
  answers-redis (clears g ∷ cs) db votes (_, u) s =
      let (e, k) = redis_clear-Shows g db votes s in
      ap₂ (λ a b. a ∷ b) e (answers-redis cs (redis_clear valkey g db).0 _ u k)

-- Over every sequence of calls that starts without votes, the local backend and the Valkey backend
-- give the answers of the one set of votes that the handlers of the rooms count on, and so agree with
-- one another. The server answers every command and no key expires; a vote is taken back from a
-- positive user id.
pub backends_refine :
    (valkey : Valkey) (serves : Serves valkey) (db : valkey.Db) (cs : List Call)
    → ((k u : ℕ) → serves.member k u db ≡ false)
    → ((k : ℕ) → serves.size k db ≡ 0)
    → All HasUser cs
    → (answers local_call cs [] ≡ answers vote_call cs [])
      × (answers (redis_call valkey) cs db ≡ answers vote_call cs [])
backends_refine valkey serves db cs none_in empty users = (
  answers-local cs [] [] (λ j. refl),
  answers-redis valkey serves cs db [] users (tt, none_in, empty),
)
