-- ===== src/Rooms/RebuiltRoom.antt =====
-- One round of the loop of `rebuildActiveRooms` of Chess-Backend/src/socket/gameSocket.js: the room
-- that it leaves under an id.
use end_to_end_kubernetes_ch.Base.{
  ℕ, ◌≡◌, refl, subst, inl, inr, true, false, Option, none, some, List, [], ◌∷◌, ◌==◌, arith,
  if◌then◌else◌, find, Bool-cases, Option-cases,
}
use end_to_end_kubernetes_ch.Store.{GameRow, MoveRow}
use end_to_end_kubernetes_ch.Store.Persist.{ChessJs}
use end_to_end_kubernetes_ch.Rooms.{Room, Server, put_room, on, lookup, keep}
use end_to_end_kubernetes_ch.Rooms.Build.{build_room, position_of, abandon_game}
use end_to_end_kubernetes_ch.Rooms.Boot.{Recovered, rebuild_room, cached_room}

same_left : (a b c : ℕ) → (a == b) ≡ true → (a == c) ≡ (b == c)
same_left a b c h = ground (arith, h)

other_hit : (a b c : ℕ) → (a == b) ≡ false → (a == c) ≡ true → (b == c) ≡ false
other_hit a b c h k = ground (arith, h, k)

-- `Map.get` after `Map.set`
find-put_room :
    {chess : ChessJs} (id : ℕ) (room : Room chess) (rs : List (Room chess))
    → find (λ (r : Room chess). r.id == id) (put_room room rs)
      ≡ (if room.id == id then some room else find (λ (r : Room chess). r.id == id) rs)
find-put_room id room [] = refl
find-put_room id room (r ∷ rs) = elim (Bool-cases (r.id == room.id)) [
  | inl same ↦ rw (same, same_left r.id room.id id same) (ground arith)
  | inr other ↦ elim (Bool-cases (r.id == id)) [
    | inl hit ↦ rw (other, hit, other_hit r.id room.id id other hit) refl
    | inr miss ↦ rw (other, miss) (find-put_room id room rs)
  ]
]

-- The room that a rebuild leaves under an id, of a result row of that id.
abbrev pub rebuilt_over :
    {chess : ChessJs} → Option (Room chess) → Option (Room chess) → Option (Room chess)
rebuilt_over none before = before
rebuilt_over (some built) before = some built

module _ (chess : ChessJs) (stored : MoveRow → chess.Request) where
  abbrev HasId : ℕ → Option (Room chess) → Type 0
  HasId room none = Unit
  HasId room (some built) = built.id ≡ room

  build_room-HasId :
      (room : ℕ) (g : GameRow) (moves : List MoveRow)
      → HasId room (build_room chess stored room g moves)
  unfolding build_room
  build_room-HasId room g moves = elim (Option-cases (position_of chess stored g moves)) [
    | inl e ↦ rw (e, HasId) tt
    | inr e ↦ rw (e.1, HasId) refl
  ]

  build_room-id :
      (room : ℕ) (g : GameRow) (moves : List MoveRow) (built : Room chess)
      → build_room chess stored room g moves ≡ some built
      → built.id ≡ room
  build_room-id room g moves built h = subst (HasId room) h (build_room-HasId room g moves)

  pub rebuild_room-cached :
      (id : ℕ) (x : Recovered) (s : Server chess)
      → cached_room id (rebuild_room chess stored x s).0 ≡ (
          if x.0 == id
          then rebuilt_over (build_room chess stored x.0 x.1 x.2) (cached_room id s)
          else cached_room id s)
  unfolding rebuild_room lookup keep abandon_game on
  rebuild_room-cached id x s = elim (Option-cases (build_room chess stored x.0 x.1 x.2)) [
    | inl e ↦ rw e (ground arith)
    | inr e ↦ rw (e.1, find-put_room id e.0 s.rooms, build_room-id x.0 x.1 x.2 e.0 e.1) refl
  ]
