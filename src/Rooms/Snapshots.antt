-- ===== src/Rooms/Snapshots.antt =====
-- The query `findRoomSnapshot` of Chess-Backend/src/models/Game.js, row by row.
use end_to_end_kubernetes_ch.Base.{
  ℕ, ◌≤◌, ◌≡◌, ◌∙◌, refl, ap, Bool, true, false, Option, none, some, List, [], ◌∷◌, ◌&&◌, arith,
  if◌then◌else◌, find,
}
use end_to_end_kubernetes_ch.Store.{
  GameRow, MoveRow, Tables, has_room, count_where, find_room_snapshot,
}
use end_to_end_kubernetes_ch.Rooms.Boot.{persisted_moves}

-- What the snapshot query finds, among these rows.
abbrev pub with_moves : List MoveRow → Option GameRow → Option (GameRow × List MoveRow)
with_moves moves none = none
with_moves moves (some g) = some (g, persisted_moves moves g)

abbrev pub is_snapshot : ℕ → GameRow → Bool
is_snapshot id g = has_room id g && g.multiplayer

abbrev pub snapshot_in : ℕ → List MoveRow → List GameRow → Option (GameRow × List MoveRow)
snapshot_in id moves games = with_moves moves (find (is_snapshot id) games)

pub no_room :
    (id : ℕ) (g : GameRow) (gs : List GameRow)
    → count_where (has_room id) (g ∷ gs) ≤ 0
    → (has_room id g ≡ false) × (count_where (has_room id) gs ≤ 0)
no_room id g gs h = ground (arith, h)

pub only_room :
    (id : ℕ) (g : GameRow) (gs : List GameRow)
    → count_where (has_room id) (g ∷ gs) ≤ 1
    → has_room id g ≡ true
    → count_where (has_room id) gs ≤ 0
only_room id g gs h = ground (arith, h)

pub snapshot_in-miss :
    (id : ℕ) (moves : List MoveRow) (g : GameRow) (gs : List GameRow)
    → is_snapshot id g ≡ false
    → snapshot_in id moves (g ∷ gs) ≡ snapshot_in id moves gs
snapshot_in-miss id moves g gs h =
    ap (λ b. with_moves moves (if b then some g else find (is_snapshot id) gs)) h

pub snapshot_in-hit :
    (id : ℕ) (moves : List MoveRow) (g : GameRow) (gs : List GameRow)
    → is_snapshot id g ≡ true
    → snapshot_in id moves (g ∷ gs) ≡ some (g, persisted_moves moves g)
snapshot_in-hit id moves g gs h =
    ap (λ b. with_moves moves (if b then some g else find (is_snapshot id) gs)) h

pub snapshot_in-none :
    (id : ℕ) (moves : List MoveRow) (games : List GameRow)
    → count_where (has_room id) games ≤ 0
    → snapshot_in id moves games ≡ none
snapshot_in-none id moves [] h = refl
snapshot_in-none id moves (g ∷ gs) h =
    let rows = no_room id g gs h in
    snapshot_in-miss id moves g gs (ground (arith, rows.0)) ∙ snapshot_in-none id moves gs rows.1

pub snapshot_in-eq :
    (id : ℕ) (db : Tables) → find_room_snapshot id db ≡ snapshot_in id db.moves db.games
unfolding find_room_snapshot
snapshot_in-eq id db =
    elim (find (is_snapshot id) db.games)
      as (λ o.
        elim o [ none ↦ none | some g ↦ some (g, persisted_moves db.moves g) ]
        ≡ with_moves db.moves o) [ none ↦ refl | some g ↦ refl ]
