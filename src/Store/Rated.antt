-- ===== src/Store/Rated.antt =====
-- The ratings and the achievements of a settled game (`finalizeGameAtomic` of
-- Chess-Backend/src/socket/gameSocket.js).
use end_to_end_kubernetes_ch.Base.{
  ℕ, ◌+◌, ◌≡◌, ◌≢◌, ◌∙◌, ap, refl, sym, inl, inr, true, false, Option, some, List, [], ◌∷◌, ◌++◌,
  arith, ◌==◌, if◌then◌else◌, filter, Bool-cases,
}
use end_to_end_kubernetes_ch.Engine.{Color, white, black}
use end_to_end_kubernetes_ch.Store.{GameResult, UserRow, Tables, one_row, update_where}
use end_to_end_kubernetes_ch.Store.Rows.{
  one_row-filter-update_where, one_row-filter-untouched, one_row-filter,
}
use end_to_end_kubernetes_ch.Store.Finalize.{
  Match, Settlement, EloChange, is_user, is_winner, set_elo, white_score, rate_users, wins_of,
  finalize_game,
}
use end_to_end_kubernetes_ch.Store.Grants.{wins_of-last, wins_of-other}
use end_to_end_kubernetes_ch.Store.Settled.{Booked, Settles, score_row, some_pair-inj}
use end_to_end_kubernetes_ch.Store.Once.{
  users_of, closed, was_over, was_unrated, was_rated, finalize_game-Finalized,
}

not_user : (a b : ℕ) (u : UserRow) → is_user a u ≡ true → a ≢ b → is_user b u ≡ false
not_user a b u e ne = ground arith

-- The rows of the two players after both updates.
rate_users-rows :
    (w b : ℕ) (e : EloChange) (users : List UserRow) (wu bu : UserRow)
    → w ≢ b
    → one_row (filter (is_user w) users) ≡ some wu
    → one_row (filter (is_user b) users) ≡ some bu
    → (one_row (filter (is_user w) (rate_users w b e users)) ≡ some (set_elo e.white_new wu))
      × (one_row (filter (is_user b) (rate_users w b e users)) ≡ some (set_elo e.black_new bu))
rate_users-rows w b e users wu bu ne hw hb =
    let pw = one_row-filter (is_user w) users hw in
    let pb = one_row-filter (is_user b) users hb in
    (
      one_row-filter-untouched (is_user w) (is_user b) (set_elo e.black_new) _ (λ u. refl)
          (one_row-filter-update_where (is_user w) (is_user w) (set_elo e.white_new) users
            (λ u. refl) hw pw)
          (not_user w b wu pw ne),
      one_row-filter-update_where (is_user b) (is_user b) (set_elo e.black_new) _ (λ u. refl)
          (one_row-filter-untouched (is_user b) (is_user w) (set_elo e.white_new) users (λ u. refl)
            hb (not_user b w bu pb (λ q. ne (sym q))))
          pb,
    )

set_elo-other :
    (u a elo : ℕ) (users : List UserRow)
    → (u == a) ≡ false
    → filter (is_user u) (update_where (is_user a) (set_elo elo) users) ≡ filter (is_user u) users
set_elo-other u a elo [] ne = refl
set_elo-other u a elo (x ∷ xs) ne = elim (Bool-cases (is_user u x)) [
  | inl e ↦
      let off : is_user a x ≡ false = ground (arith, ne) in
      rw (off, e) (ap (λ t. x ∷ t) (set_elo-other u a elo xs ne))
  | inr e ↦ elim (Bool-cases (is_user a x)) [
    | inl f ↦ rw (f, e) (set_elo-other u a elo xs ne)
    | inr f ↦ rw (f, e) (set_elo-other u a elo xs ne)
  ]
]

-- One more win for the winner, if there is one.
abbrev pub won : Color → Option Color → ℕ
won col winner = if is_winner col winner then 1 else 0

-- What the two players and all other users have after a game that `db'` has settled.
abbrev pub Rates :
    (ℕ → ℕ → ℕ → ℕ × ℕ) → Option Color → ℕ → ℕ → UserRow → UserRow → Tables → Tables → Type 0
Rates ratings winner w b wu bu db db' =
    let new = ratings wu.elo_rating bu.elo_rating (white_score winner) in
    (one_row (filter (is_user w) db.users) ≡ some wu)
    × (one_row (filter (is_user b) db.users) ≡ some bu)
    × (one_row (filter (is_user w) db'.users) ≡ some (record wu { elo_rating = new.0 }))
    × (one_row (filter (is_user b) db'.users) ≡ some (record bu { elo_rating = new.1 }))
    × ((u : ℕ)
        → (u == w) ≡ false
        → (u == b) ≡ false
        → filter (is_user u) db'.users ≡ filter (is_user u) db.users)
    × (wins_of w db'.scores ≡ wins_of w db.scores + won white winner)
    × (wins_of b db'.scores ≡ wins_of b db.scores + won black winner)
    × Booked winner w white db'
    × Booked winner b black db'

Settles-Rates :
    (ratings : ℕ → ℕ → ℕ → ℕ × ℕ) (m : Match) (result : GameResult) (winner : Option Color)
    (now w b : ℕ) (wu bu : UserRow) (e : EloChange) (db db' : Tables) (s : Settlement)
    → w ≢ b
    → one_row (filter (is_user w) db.users) ≡ some wu
    → one_row (filter (is_user b) db.users) ≡ some bu
    → e.white_new ≡ (ratings wu.elo_rating bu.elo_rating (white_score winner)).0
    → e.black_new ≡ (ratings wu.elo_rating bu.elo_rating (white_score winner)).1
    → Settles m winner now w b e (closed m.game_id result winner db) db' s
    → Rates ratings winner w b wu bu db db'
Settles-Rates ratings m result winner now w b wu bu e db db' s ne hw hb ew eb
      (free, st, ch, gs, us, sc, mv, bw, bb) =
    let (rw_w, rw_b) = rate_users-rows w b e db.users wu bu ne hw hb in
    let off_w : (b == w) ≡ false = ground (arith, ne) in
    let off_b : (w == b) ≡ false = ground (arith, ne) in
    let row_w = score_row m winner now w white in
    let row_b = score_row m winner now b black in
    (
      hw,
      hb,
      ap (λ us. one_row (filter (is_user w) us)) us ∙ rw_w ∙ ap (λ x. some (set_elo x wu)) ew,
      ap (λ us. one_row (filter (is_user b) us)) us ∙ rw_b ∙ ap (λ x. some (set_elo x bu)) eb,
      λ u nw nb.
          ap (filter (is_user u)) us
          ∙ set_elo-other u b e.black_new _ nb
          ∙ set_elo-other u w e.white_new db.users nw,
      ap (wins_of w) sc
          ∙ wins_of-other w (db.scores ++ row_w ∷ []) row_b off_w
          ∙ wins_of-last w db.scores row_w refl,
      ap (wins_of b) sc
          ∙ wins_of-last b (db.scores ++ row_w ∷ []) row_b refl
          ∙ ap (λ n. n + won black winner) (wins_of-other b db.scores row_w off_b),
      bw,
      bb,
    )

-- A game between two accounts that a call settles, whatever the ratings function, the result and the
-- time: the row of each player gets its new rating of those that the function gives for the two old
-- ratings and the score of white, and no other user's row changes; the winner has one win more, and
-- nobody else of the two; both have the achievement of the first game, and the winner that of the first
-- win.
pub finalize_game-Rates :
    (ratings : ℕ → ℕ → ℕ → ℕ × ℕ) (m : Match) (result : GameResult) (winner : Option Color)
    (now w b : ℕ) (db : Tables) {db' : Tables} {s : Settlement}
    → users_of m ≡ some (w, b)
    → finalize_game ratings m result winner now db ≡ some (db', s)
    → s.settled ≡ true
    → (wu : UserRow) × (bu : UserRow) × Rates ratings winner w b wu bu db db'
finalize_game-Rates ratings m result winner now w b db {db'} {s} pair h ok =
    elim (finalize_game-Finalized ratings m result winner now db h) [
      | was_over e p r ↦ absurd (cc (ok, r))
      | was_unrated e f p r ↦ absurd (cc (pair, f))
      | was_rated w2 b2 wu bu e f ne ew eb st ↦
          let (pw, pb) = some_pair-inj (sym pair ∙ f) in
          rw (← pw, ← pb)
            (
              wu,
              bu,
              Settles-Rates ratings m result winner now w2 b2 wu bu _ db db' s ne ew eb refl refl
                  st,
            )
    ]
