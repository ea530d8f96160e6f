-- ===== src/Store/Once.antt =====
-- The branches of `finalizeGameAtomic`, and that a game is settled at most once.
use end_to_end_kubernetes_ch.Base.{
  ℕ, ◌≡◌, ◌≢◌, ◌∙◌, sym, subst, inl, inr, Option, none, some, arith, ◌==◌, Bool-cases, Option-cases,
  filter,
}
use end_to_end_kubernetes_ch.Engine.{Color, white, black}
use end_to_end_kubernetes_ch.Store.{
  GameResult, UserRow, Tables, is_live, update_where, count_where, one_row, finish_row,
}
use end_to_end_kubernetes_ch.Store.Finalize.{
  Match, Settlement, user_of_color, both_users, is_user, elo_change_of, settle_players, unsettled,
  settled_unrated, finalize_game,
}
use end_to_end_kubernetes_ch.Store.Settled.{
  Settles, settle_players_lem, finish-not_live, some_pair-inj,
}

-- The tables after the first statement of `finalizeGameAtomic`
abbrev pub closed : ℕ → GameResult → Option Color → Tables → Tables
closed id result winner db = record db {
  games = update_where (is_live id) (finish_row result winner) db.games;
}

-- The branches of `finalizeGameAtomic`.
pub data FinalizeCase (id : ℕ) (users : Option (ℕ × ℕ)) (db : Tables) : Type 0 where
  idle : count_where (is_live id) db.games ≡ 0 → FinalizeCase id users db
  unrated : count_where (is_live id) db.games ≡ 1 → users ≡ none → FinalizeCase id users db
  rated :
      (w b : ℕ)
      → count_where (is_live id) db.games ≡ 1
      → users ≡ some (w, b)
      → FinalizeCase id users db
  clash :
      count_where (is_live id) db.games ≢ 0
      → count_where (is_live id) db.games ≢ 1
      → FinalizeCase id users db

abbrev pub users_of : Match → Option (ℕ × ℕ)
users_of m = both_users (user_of_color white m.players) (user_of_color black m.players)

finalize_cases : (id : ℕ) (users : Option (ℕ × ℕ)) (db : Tables) → FinalizeCase id users db
finalize_cases id users db = elim (Bool-cases (count_where (is_live id) db.games == 0)) [
  | inl e ↦ idle (ground arith)
  | inr e ↦ elim (Bool-cases (count_where (is_live id) db.games == 1)) [
    | inl f ↦ elim (Option-cases users) [
      | inl h ↦ unrated (ground arith) h
      | inr h ↦ rated h.0.0 h.0.1 (ground arith) h.1
    ]
    | inr f ↦ clash (ground arith) (ground arith)
  ]
]

module _ (ratings : ℕ → ℕ → ℕ → ℕ × ℕ) (m : Match) (result : GameResult) (winner : Option Color)
    (now : ℕ) (db : Tables) where
  finalize_game-idle :
      count_where (is_live m.game_id) db.games ≡ 0
      → finalize_game ratings m result winner now db ≡ some (db, unsettled)
  unfolding finalize_game
  finalize_game-idle e = simp e

  finalize_game-clash :
      count_where (is_live m.game_id) db.games ≢ 0
      → count_where (is_live m.game_id) db.games ≢ 1
      → finalize_game ratings m result winner now db ≡ none
  unfolding finalize_game
  finalize_game-clash e f = elim (Bool-cases (count_where (is_live m.game_id) db.games == 0)) [
    | inl h ↦ absurd (e (ground arith))
    | inr h ↦ elim (Bool-cases (count_where (is_live m.game_id) db.games == 1)) [
      | inl k ↦ absurd (f (ground arith))
      | inr k ↦ rw (h, k)
    ]
  ]

  finalize_game-unrated :
      count_where (is_live m.game_id) db.games ≡ 1
      → users_of m ≡ none
      → finalize_game ratings m result winner now db
        ≡ some (closed m.game_id result winner db, settled_unrated)
  unfolding finalize_game
  finalize_game-unrated e f = simp (e, f)

  finalize_game-rated :
      (w b : ℕ)
      → count_where (is_live m.game_id) db.games ≡ 1
      → users_of m ≡ some (w, b)
      → finalize_game ratings m result winner now db
        ≡ settle_players ratings m winner now w b (closed m.game_id result winner db)
  unfolding finalize_game
  finalize_game-rated w b e f = simp (e, f)

-- What a call of `finalizeGameAtomic` that does not throw has done.
pub data Finalized (ratings : ℕ → ℕ → ℕ → ℕ × ℕ) (m : Match) (result : GameResult)
    (winner : Option Color) (now : ℕ) (db db' : Tables) (s : Settlement) : Type 0 where
  was_over :
      count_where (is_live m.game_id) db.games ≡ 0
      → db' ≡ db
      → s ≡ unsettled
      → Finalized ratings m result winner now db db' s
  was_unrated :
      count_where (is_live m.game_id) db.games ≡ 1
      → users_of m ≡ none
      → db' ≡ closed m.game_id result winner db
      → s ≡ settled_unrated
      → Finalized ratings m result winner now db db' s
  was_rated :
      (w b : ℕ) (wu bu : UserRow)
      → count_where (is_live m.game_id) db.games ≡ 1
      → users_of m ≡ some (w, b)
      → w ≢ b
      → one_row (filter (is_user w) db.users) ≡ some wu
      → one_row (filter (is_user b) db.users) ≡ some bu
      → Settles m winner now w b
          (elo_change_of ratings winner wu bu)
          (closed m.game_id result winner db)
          db'
          s
      → Finalized ratings m result winner now db db' s

-- A call that commits found the game over and changed nothing, or closed the game's one row; in
-- the second case, if both players have accounts, these differ and have one row of users each, no
-- score of white for this game was there, and the ratings, both scores and the new ratings in the
-- answer are those that the ratings function gives for the rows before.
pub finalize_game-Finalized :
    (ratings : ℕ → ℕ → ℕ → ℕ × ℕ) (m : Match) (result : GameResult) (winner : Option Color)
    (now : ℕ) (db : Tables) {db' : Tables} {s : Settlement}
    → finalize_game ratings m result winner now db ≡ some (db', s)
    → Finalized ratings m result winner now db db' s
finalize_game-Finalized ratings m result winner now db h =
    elim (finalize_cases m.game_id (users_of m) db) [
      | idle e ↦
          let (p, r) =
            some_pair-inj (sym (finalize_game-idle ratings m result winner now db e) ∙ h) in
          was_over e p r
      | clash e f ↦ absurd (cc (finalize_game-clash ratings m result winner now db e f, h))
      | unrated e f ↦
          let (p, r) =
            some_pair-inj (sym (finalize_game-unrated ratings m result winner now db e f) ∙ h) in
          was_unrated e f p r
      | rated w b e f ↦
          let (ne, wu, bu, ew, eb, st) =
            settle_players_lem ratings m winner now w b (closed m.game_id result winner db)
              (sym (finalize_game-rated ratings m result winner now db w b e f) ∙ h) in
          was_rated w b wu bu e f ne ew eb st
    ]

Finalized-not_live :
    (ratings : ℕ → ℕ → ℕ → ℕ × ℕ) (m : Match) (result : GameResult) (winner : Option Color)
    (now : ℕ) (db db' : Tables) (s : Settlement)
    → Finalized ratings m result winner now db db' s
    → count_where (is_live m.game_id) db'.games ≡ 0
Finalized-not_live ratings m result winner now db db' s (was_over e p r) = rw p e
Finalized-not_live ratings m result winner now db db' s (was_unrated e f p r) =
    rw p (finish-not_live m.game_id result winner db.games)
Finalized-not_live ratings m result winner now db db' s (was_rated w b wu bu e f ne ew eb st) =
    rw (st.3) (finish-not_live m.game_id result winner db.games)

-- After a call that commits, every later call for the same game, whatever its view of the room,
-- its result and its ratings, reports `settled: false` and changes nothing: ratings, scores and
-- achievements are booked at most once.
pub finalize_game-once :
    (ratings ratings' : ℕ → ℕ → ℕ → ℕ × ℕ) (m m' : Match) (result result' : GameResult)
    (winner winner' : Option Color) (now now' : ℕ) (db : Tables) {db' : Tables} {s : Settlement}
    → m'.game_id ≡ m.game_id
    → finalize_game ratings m result winner now db ≡ some (db', s)
    → finalize_game ratings' m' result' winner' now' db' ≡ some (db', unsettled)
finalize_game-once ratings ratings' m m' result result' winner winner' now now' db {db'} {s} e h =
    finalize_game-idle ratings' m' result' winner' now' db' (
      subst (λ id. count_where (is_live id) db'.games ≡ 0) (sym e)
        (Finalized-not_live ratings m result winner now db db' s
          (finalize_game-Finalized ratings m result winner now db h)))
