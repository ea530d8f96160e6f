-- ===== src/Rooms/Rebuilt.antt =====
-- The rooms that `rebuildActiveRooms` of Chess-Backend/src/socket/gameSocket.js leaves in the cache,
-- against the database: row by row, then for the loop.
use end_to_end_kubernetes_ch.Base.{
  ℕ, ◌≤◌, ◌≡◌, ◌∙◌, refl, sym, ap, inl, inr, Bool, true, false, Option, none, some, List, [], ◌∷◌,
  ◌==◌, ==_iff, arith, if◌then◌else◌, Bool-cases,
}
use end_to_end_kubernetes_ch.Store.{
  GameRow, MoveRow, is_in_progress, has_room, count_where, find_room_snapshot,
}
use end_to_end_kubernetes_ch.Store.Persist.{ChessJs}
use end_to_end_kubernetes_ch.Rooms.{Room, Server, done, ◌>>=◌, lookup}
use end_to_end_kubernetes_ch.Rooms.Build.{build_room}
use end_to_end_kubernetes_ch.Rooms.Boot.{
  recoverable_room, persisted_moves, recoverable_of, rebuild_room, rebuild_rooms,
  rebuild_active_rooms, live_room, cached_room,
}
use end_to_end_kubernetes_ch.Rooms.RebuiltRoom.{rebuilt_over, rebuild_room-cached}
use end_to_end_kubernetes_ch.Rooms.Snapshots.{
  snapshot_in, no_room, only_room, snapshot_in-miss, snapshot_in-hit, snapshot_in-none,
  snapshot_in-eq,
}

module _ (chess : ChessJs) (stored : MoveRow → chess.Request) where
  -- One row of `games`, whether the query meets it or not.
  abbrev visit_in : Option ℕ → List MoveRow → GameRow → Server chess → Server chess
  visit_in none moves g s = s
  visit_in (some room) moves g s =
      (rebuild_room chess stored (room, g, persisted_moves moves g) s).0

  abbrev rooms_after : List MoveRow → List GameRow → Server chess → Server chess
  rooms_after moves games s = (rebuild_rooms chess stored (recoverable_of moves games) s).0

  rooms_after-cons :
      (moves : List MoveRow) (g : GameRow) (gs : List GameRow) (s : Server chess)
      → rooms_after moves (g ∷ gs) s
        ≡ rooms_after moves gs (visit_in (recoverable_room g) moves g s)
  unfolding rebuild_rooms ◌>>=◌
  rooms_after-cons moves g gs s =
      elim (recoverable_room g)
        as (λ o.
          (rebuild_rooms chess stored
            (elim o [
              | none ↦ recoverable_of moves gs
              | some room ↦ (room, g, persisted_moves moves g) ∷ recoverable_of moves gs
            ])
            s).0
          ≡ rooms_after moves gs (visit_in o moves g s)) [ none ↦ refl | some room ↦ refl ]

  abbrev names_room : ℕ → Option ℕ → Bool
  names_room id none = false
  names_room id (some room) = room == id

  visit_in-cached :
      (id : ℕ) (o : Option ℕ) (moves : List MoveRow) (g : GameRow) (s : Server chess)
      → cached_room id (visit_in o moves g s) ≡ (
          if names_room id o
          then rebuilt_over
              (build_room chess stored id g (persisted_moves moves g))
              (cached_room id s)
          else cached_room id s)
  visit_in-cached id none moves g s = refl
  visit_in-cached id (some room) moves g s =
      rebuild_room-cached chess stored id (room, g, persisted_moves moves g) s
      ∙ elim (Bool-cases (room == id)) [
        | inl e ↦ rw e (
            ap
              (λ n.
                rebuilt_over (build_room chess stored n g (persisted_moves moves g))
                  (cached_room id s))
              ((==_iff room id).0 e))
        | inr e ↦ rw e refl
      ]

  unnamed :
      (id : ℕ) (g : GameRow) → has_room id g ≡ false → names_room id (recoverable_room g) ≡ false
  unnamed id g h = ground (arith, h)

  -- Rows of other rooms leave the room under the id alone.
  rooms_after-other :
      (id : ℕ) (moves : List MoveRow) (games : List GameRow) (s : Server chess)
      → count_where (has_room id) games ≤ 0
      → cached_room id (rooms_after moves games s) ≡ cached_room id s
  unfolding rebuild_rooms done
  rooms_after-other id moves [] s h = refl
  rooms_after-other id moves (g ∷ gs) s h =
      let rows = no_room id g gs h in
      ap (cached_room id) (rooms_after-cons moves g gs s)
      ∙ rooms_after-other id moves gs (visit_in (recoverable_room g) moves g s) rows.1
      ∙ visit_in-cached id (recoverable_room g) moves g s
      ∙ rw (unnamed id g rows.0) refl

  -- A room that is built into a cache without one
  fill_room :
      (n p : Bool) (built : Option (Room chess))
      → n ≡ p
      → (if n then rebuilt_over built none else none) ≡ (if p then built else none)
  fill_room true true none h = refl
  fill_room true true (some r) h = refl
  fill_room true false built h = cc
  fill_room false true built h = cc
  fill_room false false built h = refl

  -- The only row of the room, in the loop and in the snapshot query
  own_row :
      (id : ℕ) (moves : List MoveRow) (g : GameRow) (gs : List GameRow)
      → count_where (has_room id) gs ≤ 0
      → has_room id g ≡ true
      → (if names_room id (recoverable_room g)
          then rebuilt_over (build_room chess stored id g (persisted_moves moves g)) none
          else none)
        ≡ live_room chess stored id (snapshot_in id moves (g ∷ gs))
  own_row id moves g gs h e =
      let built = build_room chess stored id g (persisted_moves moves g) in
      elim (Bool-cases g.multiplayer) [
        | inl m ↦
            fill_room (names_room id (recoverable_room g)) (is_in_progress g.status) built
              (ground (arith, e, m))
            ∙ sym (
                ap (live_room chess stored id)
                  (snapshot_in-hit id moves g gs (ground (arith, e, m))))
        | inr m ↦
            fill_room (names_room id (recoverable_room g)) false built (ground (arith, m))
            ∙ sym (
                ap (live_room chess stored id) (
                  snapshot_in-miss id moves g gs (ground (arith, m))
                  ∙ snapshot_in-none id moves gs h))
      ]

  rooms_after-eq :
      (id : ℕ) (moves : List MoveRow) (games : List GameRow) (s : Server chess)
      → count_where (has_room id) games ≤ 1
      → cached_room id s ≡ none
      → cached_room id (rooms_after moves games s)
        ≡ live_room chess stored id (snapshot_in id moves games)
  unfolding rebuild_rooms done
  rooms_after-eq id moves [] s h k = k
  rooms_after-eq id moves (g ∷ gs) s h k = elim (Bool-cases (has_room id g)) [
    | inl e ↦
        ap (cached_room id) (rooms_after-cons moves g gs s)
        ∙ rooms_after-other id moves gs (visit_in (recoverable_room g) moves g s)
            (only_room id g gs h e)
        ∙ visit_in-cached id (recoverable_room g) moves g s
        ∙ rw k (own_row id moves g gs (only_room id g gs h e) e)
    | inr e ↦
        ap (cached_room id) (rooms_after-cons moves g gs s)
        ∙ rooms_after-eq id moves gs (visit_in (recoverable_room g) moves g s)
            (ground (arith, h, e))
            (visit_in-cached id (recoverable_room g) moves g s ∙ rw (unnamed id g e) k)
        ∙ sym (ap (live_room chess stored id) (snapshot_in-miss id moves g gs (ground (arith, e))))
  ]

  -- Whatever was cached before: after the rebuild the cache has under a room's id, which at most one
  -- game bears, the room that its snapshot in the database gives if that is a multiplayer game in
  -- progress with a legal position, and nothing otherwise.
  pub rebuild_active_rooms-eq :
      (id : ℕ) (s : Server chess)
      → count_where (has_room id) s.tables.games ≤ 1
      → cached_room id (rebuild_active_rooms chess stored s).0
        ≡ live_room chess stored id (find_room_snapshot id s.tables)
  unfolding rebuild_active_rooms lookup
  rebuild_active_rooms-eq id s h =
      rooms_after-eq id s.tables.moves s.tables.games (record s { rooms = [] }) h refl
      ∙ sym (ap (live_room chess stored id) (snapshot_in-eq id s.tables))
