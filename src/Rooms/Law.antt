-- ===== src/Rooms/Law.antt =====
-- A relation between the tables before and after that every transaction of the rooms keeps, and the
-- rules by which a handler (a `Task`) keeps it.
use Prim.Native.String.{String}
use end_to_end_kubernetes_ch.Base.{
  ℕ, ◌≡◌, inl, inr, Bool, true, false, Option, none, some, if◌then◌else◌, Option-cases,
}
use end_to_end_kubernetes_ch.Engine.{Color}
use end_to_end_kubernetes_ch.Store.{
  GameResult, Tables, Tx, run_in_transaction, create, claim_black, abandon_one,
}
use end_to_end_kubernetes_ch.Store.Finalize.{Match, Player, finalize_game}
use end_to_end_kubernetes_ch.Store.Persist.{ChessJs, persist_move}
use end_to_end_kubernetes_ch.Rooms.{
  Env, Room, Server, Task, done, ◌>>=◌, on, emit, Emit, lookup, forget, keep, commit, room_task,
}
use end_to_end_kubernetes_ch.Rooms.Rematch.{start_rematch}

-- A transaction that commits relates the tables before and after.
abbrev pub KeepsTx : (Tables → Tables → Type 0) → {A : Type 0} → Tx A → Type 0
KeepsTx R {A} tx =
    (db db' : Tables) (a : A) → ◌≡◌ {A = Option (Tables × A)} (tx db) (some (db', a)) → R db db'

pub record TableLaw (chess : ChessJs) : Type 1 where
  pub Rel : Tables → Tables → Type 0
  pub same : (db : Tables) → Rel db db
  pub next : (a b c : Tables) → Rel a b → Rel b c → Rel a c
  pub abandons : (id : ℕ) (db : Tables) → Rel db (abandon_one id db)
  pub creates :
      (id : ℕ) (user : Option ℕ) (name fen : String) (now : ℕ)
      → KeepsTx Rel (create id user name fen now)
  pub claims : (id : ℕ) (user : Option ℕ) (name : String) → KeepsTx Rel (claim_black id user name)
  pub persists :
      (game : ℕ) (col : Color) (request : chess.Request)
      → KeepsTx Rel (persist_move chess game col request)
  pub finalizes :
      (ratings : ℕ → ℕ → ℕ → ℕ × ℕ) (m : Match) (result : GameResult) (winner : Option Color)
      (now : ℕ)
      → KeepsTx Rel (finalize_game ratings m result winner now)
  pub rematches :
      (old room : ℕ) (w b : Player) (fen : String) (now : ℕ)
      → KeepsTx Rel (start_rematch old room w b fen now)

module _ {chess : ChessJs} (law : TableLaw chess) where
  open law use {Rel, same, next}

  abbrev pub Keeps : {A : Type 0} → Task chess A → Type 0
  Keeps m = (s : Server chess) → Rel s.tables (m s).0.tables

  pub done-Keeps : {A : Type 0} (a : A) → Keeps (done a)
  unfolding done
  done-Keeps a s = same s.tables

  pub bind-Keeps :
      {A B : Type 0} (m : Task chess A) (k : A → Task chess B)
      → Keeps m
      → ((a : A) → Keeps (k a))
      → Keeps (m >>= k)
  unfolding ◌>>=◌
  bind-Keeps m k hm hk s =
      next s.tables (m s).0.tables (k (m s).1 (m s).0).0.tables (hm s) (hk (m s).1 (m s).0)

  pub on-Keeps :
      {A B : Type 0} (o : Option A) (m : Task chess B) (k : A → Task chess B)
      → Keeps m
      → ((a : A) → Keeps (k a))
      → Keeps (on o m k)
  unfolding on
  on-Keeps none m k hm hk = hm
  on-Keeps (some a) m k hm hk = hk a

  pub if-Keeps :
      {A : Type 0} (b : Bool) (m n : Task chess A) → Keeps m → Keeps n → Keeps (if b then m else n)
  if-Keeps true m n hm hn = hm
  if-Keeps false m n hm hn = hn

  pub emit-Keeps : (e : Emit chess) → Keeps (emit e)
  unfolding emit
  emit-Keeps e s = same s.tables

  pub lookup-Keeps : (id : ℕ) → Keeps (lookup id)
  unfolding lookup
  lookup-Keeps id s = same s.tables

  pub forget-Keeps : (id : ℕ) → Keeps (forget id)
  unfolding forget
  forget-Keeps id s = same s.tables

  pub keep-Keeps : (room : Room chess) → Keeps (keep room)
  unfolding keep
  keep-Keeps room s = same s.tables

  pub room_task-Keeps :
      {A : Type 0} (m n : Task chess A) → Keeps m → Keeps n → Keeps (room_task m n)
  unfolding room_task
  room_task-Keeps m n hm hn s = at s.draining
    where
      at : (b : Bool) → Rel s.tables (if b then m s else n s).0.tables
      at true = hm s
      at false = hn s

  run_in_transaction-Rel :
      {A : Type 0} (tx : Tx A) (db : Tables) → KeepsTx Rel tx → Rel db (run_in_transaction tx db).0
  unfolding run_in_transaction
  run_in_transaction-Rel tx db h = elim (Option-cases (tx db)) [
    | inl f ↦ rw (run_in_transaction, f) (same db)
    | inr (r, f) ↦ rw (run_in_transaction, f) (h db r.0 r.1 f)
  ]

  pub commit-Keeps : {A : Type 0} (env : Env) (tx : Tx A) → KeepsTx Rel tx → Keeps (commit env tx)
  unfolding commit
  commit-Keeps {A = A} env tx h s = at env.tx_fails
    where
      ran : Server chess × Option A
      ran = (
        record s { tables = (run_in_transaction tx s.tables).0 },
        (run_in_transaction tx s.tables).1,
      )

      at :
          (b : Bool)
          → Rel s.tables (if◌then◌else◌ {A = Server chess × Option A} b (s, none) ran).0.tables
      at true = same s.tables
      at false = run_in_transaction-Rel tx s.tables h
