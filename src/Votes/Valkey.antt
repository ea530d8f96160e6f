-- ===== src/Votes/Valkey.antt =====
-- The backend of Chess-Backend/src/services/rematchVotes.js on Valkey. The server is an argument: its
-- commands change a database, and each may fail or time out, in which case it may have been executed.
use end_to_end_kubernetes_ch.Base.{
  ℕ, suc, ◌-◌, ◌≡◌, Bool, true, false, not, Option, none, some, ◌==◌, ◌&&◌, ◌||◌, if◌then◌else◌,
}
use end_to_end_kubernetes_ch.Votes.{
  Answer, counted, carried_out, refused, unavailable, Call, adds, removes, clears, key_for_game,
  is_user_id,
}

-- `REMATCH_TTL_SECONDS`
abbrev pub rematch_ttl_seconds : ℕ
rematch_ttl_seconds = 3600

-- The commands that are used: the database afterwards, and whether the command was answered.
pub record Valkey : Type 1 where
  pub Db : Type 0
  pub sadd : ℕ → ℕ → Db → Db × Bool
  pub srem : ℕ → ℕ → Db → Db × Bool
  pub expire : ℕ → ℕ → Db → Db × Bool
  pub del : ℕ → Db → Db × Bool
  pub scard : ℕ → Db → Option ℕ

module _ (valkey : Valkey) where
  open valkey use {Db}

  -- `addVote`
  unfoldable pub redis_add : ℕ → ℕ → Db → Db × Answer
  redis_add game user db = elim (key_for_game game) [
    | none ↦ (db, refused)
    | some key ↦
        let (added, sent) = valkey.sadd key user db in
        let (kept, timed) = valkey.expire key rematch_ttl_seconds added in
        if not (is_user_id user)
        then (db, refused)
        else if not sent
        then (added, unavailable)
        else if not timed
        then (kept, unavailable)
        else elim (valkey.scard key kept) [
          | none ↦ (kept, unavailable)
          | some count ↦ (kept, counted count)
        ]
  ]

  -- `removeVote`
  unfoldable pub redis_remove : ℕ → ℕ → Db → Db × Answer
  redis_remove game user db = elim (key_for_game game) [
    | none ↦ (db, carried_out false)
    | some key ↦
        let (after, sent) = valkey.srem key user db in
        if is_user_id user then (after, carried_out sent) else (db, carried_out false)
  ]

  -- `clearVotes`
  unfoldable pub redis_clear : ℕ → Db → Db × Answer
  redis_clear game db = elim (key_for_game game) [
    | none ↦ (db, carried_out false)
    | some key ↦ let (after, sent) = valkey.del key db in (after, carried_out sent)
  ]

  abbrev pub redis_call : Call → Db → Db × Answer
  redis_call (adds game user) db = redis_add game user db
  redis_call (removes game user) db = redis_remove game user db
  redis_call (clears game) db = redis_clear game db

-- A server that answers every command, before a key expires: each key has a set and its size, as the
-- commands are documented.
pub record Serves (valkey : Valkey) : Type 0 where
  pub member : ℕ → ℕ → valkey.Db → Bool
  pub size : ℕ → valkey.Db → ℕ
  pub sadd_answers : (k u : ℕ) (db : valkey.Db) → (valkey.sadd k u db).1 ≡ true
  pub srem_answers : (k u : ℕ) (db : valkey.Db) → (valkey.srem k u db).1 ≡ true
  pub expire_answers : (k s : ℕ) (db : valkey.Db) → (valkey.expire k s db).1 ≡ true
  pub del_answers : (k : ℕ) (db : valkey.Db) → (valkey.del k db).1 ≡ true
  pub scard_answers : (k : ℕ) (db : valkey.Db) → valkey.scard k db ≡ some (size k db)
  pub member-sadd :
      (k u j v : ℕ) (db : valkey.Db)
      → member j v (valkey.sadd k u db).0 ≡ (k == j && u == v || member j v db)
  pub size-sadd :
      (k u j : ℕ) (db : valkey.Db)
      → size j (valkey.sadd k u db).0
        ≡ (if k == j && not (member k u db) then suc (size j db) else size j db)
  pub member-srem :
      (k u j v : ℕ) (db : valkey.Db)
      → member j v (valkey.srem k u db).0 ≡ (not (k == j && u == v) && member j v db)
  pub size-srem :
      (k u j : ℕ) (db : valkey.Db)
      → size j (valkey.srem k u db).0
        ≡ (if k == j && member k u db then size j db - 1 else size j db)
  pub member-expire :
      (k s j v : ℕ) (db : valkey.Db) → member j v (valkey.expire k s db).0 ≡ member j v db
  pub size-expire : (k s j : ℕ) (db : valkey.Db) → size j (valkey.expire k s db).0 ≡ size j db
  pub member-del :
      (k j v : ℕ) (db : valkey.Db)
      → member j v (valkey.del k db).0 ≡ (not (k == j) && member j v db)
  pub size-del :
      (k j : ℕ) (db : valkey.Db) → size j (valkey.del k db).0 ≡ (if k == j then 0 else size j db)
