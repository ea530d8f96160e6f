-- ===== src/Store/Recorded.antt =====
-- What `persistMoveAtomic` does to the tables, and that the next move goes on from there.
use Prim.Native.String.{String}
use end_to_end_kubernetes_ch.Base.{
  ℕ, ◌≡◌, ◌∙◌, refl, sym, ap, ◌⊎◌, inl, inr, true, false, none, some, [], ◌∷◌, ◌++◌, Bool-cases,
  Option-cases, filter,
}
use end_to_end_kubernetes_ch.Engine.{Color, same_color}
use end_to_end_kubernetes_ch.Store.{
  GameRow, MoveRow, Tables, is_in_progress, is_live, by_id, update_where, one_row,
}
use end_to_end_kubernetes_ch.Store.Rows.{
  one_row-filter-update_where, one_row-filter, count_where-one_row,
}
use end_to_end_kubernetes_ch.Store.Settled.{some_pair-inj}
use end_to_end_kubernetes_ch.Store.Persist.{
  ChessJs, load_or_initial, set_fen, Persisted, move_row, write_move, persist_move,
}

module _ (chess : ChessJs) (game : ℕ) (col : Color) (request : chess.Request) (db : Tables) where
  open chess use {Pos, Request, fen, turn, play}

  -- The accepted move, `g` the locked row, `before` its position.
  pub data Accepted (after : Pos) (san : String) : Type 0 where
    accepted :
        (g : GameRow) (before : Pos)
        → one_row (filter (by_id game) db.games) ≡ some g
        → is_in_progress g.status ≡ true
        → load_or_initial chess g.board_fen ≡ some before
        → same_color (turn before) col ≡ true
        → play before request ≡ some (after, san)
        → Accepted after san

  -- The branches of `persistMoveAtomic`.
  pub data PersistCase : Type 0 where
    throws : persist_move chess game col request db ≡ none → PersistCase
    refuses : persist_move chess game col request db ≡ some (db, none) → PersistCase
    plays :
        (after : Pos) (san : String)
        → Accepted after san
        → persist_move chess game col request db ≡ write_move chess game col after san db
        → PersistCase

  persist_move-missing :
      one_row (filter (by_id game) db.games) ≡ none → persist_move chess game col request db ≡ none
  unfolding persist_move
  persist_move-missing e = simp (persist_move, e)

  module _ (g : GameRow) (e : one_row (filter (by_id game) db.games) ≡ some g) where
    persist_move-over :
        is_in_progress g.status ≡ false → persist_move chess game col request db ≡ none
    unfolding persist_move
    persist_move-over h = simp (persist_move, e, h)

    module _ (h : is_in_progress g.status ≡ true) where
      persist_move-unloaded :
          load_or_initial chess g.board_fen ≡ none → persist_move chess game col request db ≡ none
      unfolding persist_move
      persist_move-unloaded l = simp (persist_move, e, h, l)

      module _ (p : Pos) (l : load_or_initial chess g.board_fen ≡ some p) where
        persist_move-not_turn :
            same_color (turn p) col ≡ false
            → persist_move chess game col request db ≡ some (db, none)
        unfolding persist_move
        persist_move-not_turn t = simp (persist_move, e, h, l, t)

        persist_move-illegal :
            same_color (turn p) col ≡ true
            → play p request ≡ none
            → persist_move chess game col request db ≡ some (db, none)
        unfolding persist_move
        persist_move-illegal t q = simp (persist_move, e, h, l, t, q)

        persist_move-legal :
            (r : Pos × String)
            → same_color (turn p) col ≡ true
            → play p request ≡ some r
            → persist_move chess game col request db ≡ write_move chess game col r.0 r.1 db
        unfolding persist_move
        persist_move-legal r t q = simp (persist_move, e, h, l, t, q)

  persist_cases : PersistCase
  persist_cases = elim (Option-cases (one_row (filter (by_id game) db.games))) [
    | inl e ↦ throws (persist_move-missing e)
    | inr (g, e) ↦ elim (Bool-cases (is_in_progress g.status)) [
      | inr h ↦ throws (persist_move-over g e h)
      | inl h ↦ elim (Option-cases (load_or_initial chess g.board_fen)) [
        | inl l ↦ throws (persist_move-unloaded g e h l)
        | inr (p, l) ↦ elim (Bool-cases (same_color (turn p) col)) [
          | inr t ↦ refuses (persist_move-not_turn g e h p l t)
          | inl t ↦ elim (Option-cases (play p request)) [
            | inl q ↦ refuses (persist_move-illegal g e h p l t q)
            | inr (r, q) ↦
                plays r.0 r.1 (accepted g p e h l t q) (persist_move-legal g e h p l r t q)
          ]
        ]
      ]
    ]
  ]

  -- The tables after an accepted move.
  abbrev pub recorded : Pos → String → Tables
  recorded after san = record db {
    games = update_where (is_live game) (set_fen (fen after)) db.games;
    moves = db.moves ++ move_row chess game col after san db ∷ [];
  }

  -- An accepted move is written: the update meets exactly the locked row.
  write_move-Accepted :
      (after : Pos) (san : String)
      → Accepted after san
      → write_move chess game col after san db
        ≡ some (recorded after san, some (after, move_row chess game col after san db))
  unfolding write_move
  write_move-Accepted after san (accepted g before e h l t q) =
      rw
        (
          write_move,
          count_where-one_row (by_id game) (λ (r : GameRow). is_in_progress r.status) db.games e h,
        )
        refl

-- A call that commits has either refused the move and changed nothing, or accepted a move that is
-- legal for the side to move in the stored position; then it appends one row, numbered one past
-- the largest number of the game, and stores the new position in the game's row.
pub persist_move-Accepted :
    (chess : ChessJs) (game : ℕ) (col : Color) (request : chess.Request) (db : Tables)
    {db' : Tables} {v : Persisted chess}
    → persist_move chess game col request db ≡ some (db', v)
    → ((db' ≡ db) × (v ≡ none))
      ⊎ ((after : chess.Pos) × (san : String) × Accepted chess game col request db after san
          × (db' ≡ recorded chess game col request db after san)
          × (v ≡ some (after, move_row chess game col after san db)))
persist_move-Accepted chess game col request db h = elim (persist_cases chess game col request db) [
  | throws e ↦ absurd (cc (e, h))
  | refuses e ↦ inl (some_pair-inj (sym e ∙ h))
  | plays after san ok e ↦
      let (p, r) =
        some_pair-inj (sym (e ∙ write_move-Accepted chess game col request db after san ok) ∙ h) in
      inr (after, san, ok, p, r)
]

-- A move that chess.js accepts in the stored position of a running game, for the side to move, is
-- committed: the update meets one row.
pub persist_move-commits :
    (chess : ChessJs) (game : ℕ) (col : Color) (request : chess.Request) (db : Tables)
    (after : chess.Pos) (san : String)
    → Accepted chess game col request db after san
    → persist_move chess game col request db
      ≡ some (
        recorded chess game col request db after san,
        some (after, move_row chess game col after san db),
      )
persist_move-commits chess game col request db after san (accepted g before e h l t q) =
    persist_move-legal chess game col request db g e h before l (after, san) t q
    ∙ write_move-Accepted chess game col request db after san (accepted g before e h l t q)

recorded-resumes :
    (chess : ChessJs) (game : ℕ) (col : Color) (request : chess.Request) (db : Tables)
    (after : chess.Pos) (san : String)
    → Accepted chess game col request db after san
    → (g : GameRow) × (next : chess.Pos) × (one_row
          (filter (by_id game) (recorded chess game col request db after san).games)
        ≡ some g)
      × (is_in_progress g.status ≡ true)
      × (load_or_initial chess g.board_fen ≡ some next)
      × (chess.fen next ≡ chess.fen after)
recorded-resumes chess game col request db after san (accepted g before e h l t q) =
    let (next, ln, fn) = chess.load-fen after in
    (
      set_fen (chess.fen after) g,
      next,
      one_row-filter-update_where (by_id game) (is_live game) (set_fen (chess.fen after)) db.games
          (λ b. refl) e (rw (one_row-filter (by_id game) db.games e, h) refl),
      h,
      ln,
      fn,
    )

-- After a call that answers with a move, the row that the next call locks is still in progress, and
-- the position that it loads has the FEN of the answered one, which is also the move row's.
pub persist_move-resumes :
    (chess : ChessJs) (game : ℕ) (col : Color) (request : chess.Request) (db : Tables)
    {db' : Tables} {after : chess.Pos} {row : MoveRow}
    → persist_move chess game col request db ≡ some (db', some (after, row))
    → (g : GameRow) × (next : chess.Pos) × (one_row (filter (by_id game) db'.games) ≡ some g)
      × (is_in_progress g.status ≡ true)
      × (load_or_initial chess g.board_fen ≡ some next)
      × (chess.fen next ≡ chess.fen after)
      × (row.fen_after ≡ chess.fen after)
persist_move-resumes chess game col request db {db'} {after} {row} h =
    elim (persist_move-Accepted chess game col request db h) [
      | inl r ↦ absurd (cc (r.1))
      | inr (a, san, ok, p, r) ↦
          let (ra, rr) = some_pair-inj r in
          let (g, next, e, st, ln, fn) = recorded-resumes chess game col request db a san ok in
          (
            g,
            next,
            ap (λ (x : Tables). one_row (filter (by_id game) x.games)) p ∙ e,
            st,
            ln,
            fn ∙ ap chess.fen ra,
            sym (ap (λ (x : MoveRow). x.fen_after) rr) ∙ ap chess.fen ra,
          )
    ]
