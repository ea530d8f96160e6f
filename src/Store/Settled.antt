-- ===== src/Store/Settled.antt =====
-- What `finalizeGameAtomic` does on each branch, and that a game is settled at most once.
use end_to_end_kubernetes_ch.Base.{
  ℕ, leb, if◌then◌else◌, ◌+◌, ◌-◌, ◌/◌, ◌≡◌, ◌≢◌, ◌∙◌, refl, sym, ap, subst, inl, inr, true, false,
  not, ◌||◌, Option, none, some, List, [], ◌∷◌, ◌++◌, arith, ◌==◌, Bool-cases, filter, >>=-eq-some,
}
use end_to_end_kubernetes_ch.Engine.{Color, white, black}
use end_to_end_kubernetes_ch.Store.{
  GameResult, GameRow, UserRow, ScoreRow, Tables, Achievement, first_game, first_win, is_live,
  update_where, count_where, one_row, finish_row,
}
use end_to_end_kubernetes_ch.Store.Finalize.{
  Match, Settlement, EloChange, is_user, is_winner, has_score, wins_of, record_player, record_both,
  rate_users, elo_change_of, settle_users, settle_players, has_achievement,
}
use end_to_end_kubernetes_ch.Store.Grants.{
  grant-keeps, grant-first_game, grant-first_win, wins_of-last,
}

-- A settled game is live no more.
pub finish-not_live :
    (id : ℕ) (result : GameResult) (winner : Option Color) (games : List GameRow)
    → count_where (is_live id) (update_where (is_live id) (finish_row result winner) games) ≡ 0
finish-not_live id result winner [] = refl
finish-not_live id result winner (g ∷ gs) = elim (Bool-cases (is_live id g)) [
  | inl e ↦ rw e (ground (arith, finish-not_live id result winner gs))
  | inr e ↦ rw (e, e) (omega (arith, finish-not_live id result winner gs))
]

-- The score that one player gets.
abbrev pub score_row : Match → Option Color → ℕ → ℕ → Color → ScoreRow
score_row m winner now user col = record {
  user_id = user;
  moves = m.total_moves;
  duration_seconds = (now - m.created_at) / 1000;
  winner = is_winner col winner;
  game_id = m.game_id;
}

-- The achievements of one player: the first game, and the first win if the player has won.
abbrev pub Booked : Option Color → ℕ → Color → Tables → Type 0
Booked winner user col db =
    (has_achievement user first_game db.achievements ≡ true)
    × (is_winner col winner ≡ true → has_achievement user first_win db.achievements ≡ true)

win_counted :
    (m : Match) (winner : Option Color) (now user : ℕ) (col : Color) (scores : List ScoreRow)
    → is_winner col winner ≡ true
    → leb 1 (wins_of user (scores ++ score_row m winner now user col ∷ [])) ≡ true
win_counted m winner now user col scores e =
    let n = wins_of-last user scores (score_row m winner now user col) refl in
    rw (n ∙ ap (λ b. wins_of user scores + (if b then 1 else 0)) e) (ground arith)

record_player-Booked :
    (m : Match) (winner : Option Color) (now user : ℕ) (col : Color) (db : Tables) {db' : Tables}
    → record_player m winner now user col db ≡ some db'
    → Booked winner user col db'
      × ((u : ℕ) (k : Achievement)
          → has_achievement u k db.achievements ≡ true
          → has_achievement u k db'.achievements ≡ true)
unfolding record_player
record_player-Booked m winner now user col db {db'} h =
    elim (Bool-cases (has_score m.game_id user db.scores)) [
      | inl e ↦ absurd (cc (rw e at h))
      | inr e ↦
          let q =
            ap (λ o. elim o [ none ↦ db.achievements | some x ↦ x.achievements ])
              (sym (rw e at h)) in
          (
            (
              ap (has_achievement user first_game) q ∙ grant-first_game user _ _ _ db.achievements,
              λ won.
                  ap (has_achievement user first_win) q
                  ∙ rw won (
                      grant-first_win user _ _ db.achievements
                        (rw won at (win_counted m winner now user col db.scores won))),
            ),
            λ u k own. ap (has_achievement u k) q ∙ grant-keeps u user k _ db.achievements own,
          )
    ]

record_player_lem :
    (m : Match) (winner : Option Color) (now user : ℕ) (col : Color) (db : Tables) {db' : Tables}
    → record_player m winner now user col db ≡ some db'
    → (has_score m.game_id user db.scores ≡ false)
      × (db'.games ≡ db.games)
      × (db'.users ≡ db.users)
      × (db'.scores ≡ db.scores ++ score_row m winner now user col ∷ [])
      × (db'.moves ≡ db.moves)
unfolding record_player
record_player_lem m winner now user col db h =
    elim (Bool-cases (has_score m.game_id user db.scores)) [
      | inl e ↦ absurd (cc (rw e at h))
      | inr e ↦ (e, ground arith, ground arith, ground arith, ground arith)
    ]

record_both_lem :
    (m : Match) (winner : Option Color) (now w b : ℕ) (db : Tables) {db' : Tables}
    → record_both m winner now w b db ≡ some db'
    → (has_score m.game_id w db.scores ≡ false)
      × (db'.games ≡ db.games)
      × (db'.users ≡ db.users)
      × (db'.scores
          ≡ (db.scores ++ score_row m winner now w white ∷ [])
            ++ score_row m winner now b black ∷ [])
      × (db'.moves ≡ db.moves)
      × Booked winner w white db'
      × Booked winner b black db'
unfolding record_both
record_both_lem m winner now w b db h =
    let (db₁, e₁, h₁) = >>=-eq-some (record_player m winner now w white db) _ h in
    let ((first, win), _) = record_player-Booked m winner now w white db e₁ in
    let (other, stay) = record_player-Booked m winner now b black db₁ h₁ in
    let (f₁, g₁, u₁, s₁, m₁) = record_player_lem m winner now w white db e₁ in
    let (f₂, g₂, u₂, s₂, m₂) = record_player_lem m winner now b black db₁ h₁ in
    (
      f₁,
      g₂ ∙ g₁,
      u₂ ∙ u₁,
      s₂ ∙ ap (λ t. t ++ score_row m winner now b black ∷ []) s₁,
      m₂ ∙ m₁,
      (stay w first_game first, λ won. stay w first_win (win won)),
      other,
    )

pub some_pair-inj :
    {A B : Type 0} {a c : A} {b d : B}
    → ◌≡◌ {A = Option (A × B)} (some (a, b)) (some (c, d))
    → (c ≡ a) × (d ≡ b)
some_pair-inj {a = a} {b = b} h = (
  sym (ap (λ o. elim o [ none ↦ a | some p ↦ p.0 ]) h),
  sym (ap (λ o. elim o [ none ↦ b | some p ↦ p.1 ]) h),
)

-- What a settlement with the ratings `e` does to the tables.
abbrev pub Settles :
    Match → Option Color → ℕ → ℕ → ℕ → EloChange → Tables → Tables → Settlement → Type 0
Settles m winner now w b e db db' s =
    (has_score m.game_id w db.scores ≡ false)
    × (s.settled ≡ true)
    × (s.elo_change ≡ some e)
    × (db'.games ≡ db.games)
    × (db'.users ≡ rate_users w b e db.users)
    × (db'.scores
        ≡ (db.scores ++ score_row m winner now w white ∷ []) ++ score_row m winner now b black ∷ [])
    × (db'.moves ≡ db.moves)
    × Booked winner w white db'
    × Booked winner b black db'

settled_by :
    (m : Match) (winner : Option Color) (now w b : ℕ) (e : EloChange) (db db₂ : Tables)
    {db' : Tables} {s : Settlement}
    → record_both m winner now w b (record db { users = rate_users w b e db.users }) ≡ some db₂
    → ◌≡◌ {A = Option (Tables × Settlement)}
        (some (db₂, record { settled = true; elo_change = some e }))
        (some (db', s))
    → Settles m winner now w b e db db' s
settled_by m winner now w b e db db₂ h q =
    let (f, g, u, t, mv, bw, bb) =
      record_both_lem m winner now w b (record db { users = rate_users w b e db.users }) h in
    let (p, r) = some_pair-inj q in
    (
      f,
      ap (λ (x : Settlement). x.settled) r,
      ap (λ (x : Settlement). x.elo_change) r,
      ap (λ (x : Tables). x.games) p ∙ g,
      ap (λ (x : Tables). x.users) p ∙ u,
      ap (λ (x : Tables). x.scores) p ∙ t,
      ap (λ (x : Tables). x.moves) p ∙ mv,
      subst (Booked winner w white) (sym p) bw,
      subst (Booked winner b black) (sym p) bb,
    )

settle_users_lem :
    (m : Match) (winner : Option Color) (now w b : ℕ) (e : EloChange) (db : Tables) {db' : Tables}
    {s : Settlement}
    → settle_users m winner now w b e db ≡ some (db', s)
    → Settles m winner now w b e db db' s
unfolding settle_users
settle_users_lem m winner now w b e db h =
    elim (Bool-cases (
      not (count_where (is_user w) db.users == 1) || not (count_where (is_user b) db.users == 1))) [
        | inl q ↦ absurd (cc (rw q at h))
        | inr q ↦
            let (db₂, e₂, h₂) =
              >>=-eq-some
                (record_both m winner now w b (record db { users = rate_users w b e db.users })) _
                (rw q at h) in
            settled_by m winner now w b e db db₂ e₂ h₂
      ]

pub settle_players_lem :
    (ratings : ℕ → ℕ → ℕ → ℕ × ℕ) (m : Match) (winner : Option Color) (now w b : ℕ) (db : Tables)
    {db' : Tables} {s : Settlement}
    → settle_players ratings m winner now w b db ≡ some (db', s)
    → (w ≢ b)
      × (wu : UserRow) × (bu : UserRow) × (one_row (filter (is_user w) db.users) ≡ some wu)
      × (one_row (filter (is_user b) db.users) ≡ some bu)
      × Settles m winner now w b (elo_change_of ratings winner wu bu) db db' s
unfolding settle_players
settle_players_lem ratings m winner now w b db h = elim (Bool-cases (w == b)) [
  | inl e ↦ absurd (cc (rw e at h))
  | inr e ↦
      let (wu, ew, h₁) = >>=-eq-some (one_row (filter (is_user w) db.users)) _ (rw e at h) in
      let (bu, eb, h₂) = >>=-eq-some (one_row (filter (is_user b) db.users)) _ h₁ in
      (
        ground arith,
        wu,
        bu,
        ew,
        eb,
        settle_users_lem m winner now w b (elo_change_of ratings winner wu bu) db h₂,
      )
]
