-- ===== src/Store/Seats.antt =====
-- The black seat of a multiplayer game (`Game.claimBlack`, `Game.joinBlackById` of
-- Chess-Backend/src/models/Game.js): it is given away once.
use Prim.Native.String.{String}
use end_to_end_kubernetes_ch.Base.{
  ℕ, ◌≡◌, ◌∙◌, refl, sym, ap, ◌⊎◌, inl, inr, true, false, Option, none, some, Bool-cases,
  Option-cases, filter,
}
use end_to_end_kubernetes_ch.Store.{
  GameRow, Tables, is_live, is_open, by_id, update_where, one_row, seat_black, join_black_by_id,
  claim_black,
}
use end_to_end_kubernetes_ch.Store.Rows.{one_row-filter-update_where, one_row-narrow}
use end_to_end_kubernetes_ch.Store.Settled.{some_pair-inj}

open_of_not : (id : ℕ) (g : GameRow) → by_id id g ≡ false → is_open id g ≡ false
open_of_not id g e = rw e refl

taken :
    (id : ℕ) (user : Option ℕ) (name : String) (g : GameRow)
    → is_open id (seat_black user name g) ≡ false
taken id user name g = elim (Bool-cases (is_live id (seat_black user name g))) [
  | inl e ↦ rw e refl
  | inr e ↦ rw e refl
]

module _ (id : ℕ) (user : Option ℕ) (name : String) (db : Tables) where
  claim_black-missing :
      one_row (filter (by_id id) db.games) ≡ none → claim_black id user name db ≡ none
  unfolding claim_black
  claim_black-missing e = simp (claim_black, e)

  module _ (g : GameRow) (e : one_row (filter (by_id id) db.games) ≡ some g) where
    claim_black-closed : is_open id g ≡ false → claim_black id user name db ≡ some (db, none)
    unfolding claim_black
    claim_black-closed h = simp (claim_black, e, h)

    claim_black-open :
        is_open id g ≡ true
        → claim_black id user name db
          ≡ some (
            record db { games = update_where (is_open id) (seat_black user name) db.games },
            some (seat_black user name g),
          )
    unfolding claim_black join_black_by_id
    claim_black-open h = simp (
      claim_black,
      e,
      h,
      join_black_by_id,
      one_row-narrow (by_id id) (is_open id) (open_of_not id) db.games e h,
    )

  -- Two answers of `claimBlack`, if it answers.
  pub claim_black_lem :
      {db' : Tables} {seat : Option GameRow}
      → claim_black id user name db ≡ some (db', seat)
      → (g : GameRow) × (one_row (filter (by_id id) db.games) ≡ some g)
        × (((is_open id g ≡ false) × (db' ≡ db) × (seat ≡ none))
            ⊎ ((is_open id g ≡ true)
                × (db' ≡ record db {
                  games = update_where (is_open id) (seat_black user name) db.games;
                })
                × (seat ≡ some (seat_black user name g))))
  claim_black_lem h = elim (Option-cases (one_row (filter (by_id id) db.games))) [
    | inl e ↦ absurd (cc (claim_black-missing e, h))
    | inr (g, e) ↦ (
      g,
      e,
      elim (Bool-cases (is_open id g)) [
        | inr k ↦ let (p, r) = some_pair-inj (sym (claim_black-closed g e k) ∙ h) in inl (k, p, r)
        | inl k ↦ let (p, r) = some_pair-inj (sym (claim_black-open g e k) ∙ h) in inr (k, p, r)
      ],
    )
  ]

-- A claim of the black seat that succeeds finds a running game without a black player, seats the
-- caller, and every later claim of the same game finds the seat taken and changes nothing.
pub claim_black-once :
    (id : ℕ) (user user' : Option ℕ) (name name' : String) (db : Tables) {db' : Tables}
    {row : GameRow}
    → claim_black id user name db ≡ some (db', some row)
    → (row.black_name ≡ some name)
      × (row.black_user ≡ user)
      × ((g : GameRow) × (one_row (filter (by_id id) db.games) ≡ some g) × (is_open id g ≡ true))
      × (claim_black id user' name' db' ≡ some (db', none))
claim_black-once id user user' name name' db {db'} {row} h =
    let (g, e, c) = claim_black_lem id user name db h in
    elim c [
      | inl (k, p, r) ↦ absurd (cc r)
      | inr (k, p, r) ↦
          let eq : row ≡ seat_black user name g = ap (λ o. elim o [ none ↦ row | some x ↦ x ]) r in
          (
            ap (λ (x : GameRow). x.black_name) eq,
            ap (λ (x : GameRow). x.black_user) eq,
            (g, e, k),
            claim_black-closed id user' name' db' (seat_black user name g)
                (ap (λ (x : Tables). one_row (filter (by_id id) x.games)) p
                  ∙ one_row-filter-update_where (by_id id) (is_open id) (seat_black user name)
                      db.games (λ b. refl) e k)
                (taken id user name g),
          )
    ]
