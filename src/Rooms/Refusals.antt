-- ===== src/Rooms/Refusals.antt =====
-- When the handlers of Chess-Backend/src/socket/gameSocket.js do nothing: while the process is
-- draining, and on a move by somebody who is not to move.
use end_to_end_kubernetes_ch.Base.{
  ℕ, ◌≡◌, refl, inl, inr, true, false, Option, none, some, find, any, ◌==◌, Bool-cases,
}
use end_to_end_kubernetes_ch.Engine.{same_color}
use end_to_end_kubernetes_ch.Store.{MoveRow}
use end_to_end_kubernetes_ch.Store.Finalize.{Player}
use end_to_end_kubernetes_ch.Store.Persist.{ChessJs}
use end_to_end_kubernetes_ch.Rooms.{
  Env, Room, Server, Task, Emit, to_socket, error, done, ◌>>=◌, on, emit, lookup, room_task,
  is_playing, is_at,
}
use end_to_end_kubernetes_ch.Rooms.Play.{
  in_cached_room, move_live, make_move, game_over, resign_game,
}
use end_to_end_kubernetes_ch.Rooms.Rematch.{accept_rematch}
use end_to_end_kubernetes_ch.Rooms.Leave.{leave_room, disconnect, disconnect_live}

module _ {chess : ChessJs} where
  -- At most messages were sent.
  abbrev pub Untouched : Server chess → Server chess → Type 0
  Untouched s s' = (s'.tables ≡ s.tables) × (s'.rooms ≡ s.rooms) × (s'.votes ≡ s.votes)

  -- A task that only sends messages.
  abbrev pub IsQuiet : Task chess (Unit {0}) → Type 0
  IsQuiet m = (s : Server chess) → Untouched s (m s).0

  emit-IsQuiet : (e : Emit chess) → IsQuiet (emit e)
  unfolding emit
  emit-IsQuiet e s = (refl, refl, refl)

  done-IsQuiet : IsQuiet (done tt)
  unfolding done
  done-IsQuiet s = (refl, refl, refl)

  room_task-draining :
      (m n : Task chess (Unit {0})) (s : Server chess) → s.draining ≡ true → room_task m n s ≡ m s
  unfolding room_task
  room_task-draining m n s e = simp e

  in_cached_room-draining :
      (id : Option ℕ) (missing refused : Task chess (Unit {0}))
      (task : Room chess → Task chess (Unit {0})) (s : Server chess)
      → IsQuiet missing
      → IsQuiet refused
      → s.draining ≡ true
      → Untouched s (in_cached_room id missing (λ room. room_task refused (task room)) s).0
  unfolding in_cached_room on ◌>>=◌ lookup
  in_cached_room-draining none missing refused task s hm hr e = hm s
  in_cached_room-draining (some wanted) missing refused task s hm hr e =
      at (find (λ (r : Room chess). r.id == wanted) s.rooms)
    where
      at :
          (c : Option (Room chess))
          → Untouched s (on c missing (λ room. room_task refused (task room)) s).0
      at none = hm s
      at (some room) = simp (room_task-draining refused (task room) s e) (hr s)

module _ (chess : ChessJs) (stored : MoveRow → chess.Request) (ratings : ℕ → ℕ → ℕ → ℕ × ℕ)
    (env : Env) (s : Server chess) (e : s.draining ≡ true) (socket : ℕ) (id : Option ℕ) where
  make_move-draining :
      (request : chess.Request)
      → Untouched s (make_move chess ratings env stored socket id request s).0
  unfolding make_move
  make_move-draining request =
      in_cached_room-draining id _ _ _ s (emit-IsQuiet _) (emit-IsQuiet _) e

  game_over-draining : Untouched s (game_over chess ratings env stored socket id s).0
  unfolding game_over
  game_over-draining = in_cached_room-draining id _ _ _ s done-IsQuiet (emit-IsQuiet _) e

  resign_game-draining : Untouched s (resign_game chess ratings env stored socket id s).0
  unfolding resign_game
  resign_game-draining = in_cached_room-draining id _ _ _ s done-IsQuiet (emit-IsQuiet _) e

  accept_rematch-draining : Untouched s (accept_rematch chess env stored socket id s).0
  unfolding accept_rematch
  accept_rematch-draining = in_cached_room-draining id _ _ _ s done-IsQuiet (emit-IsQuiet _) e

  leave_room-draining : Untouched s (leave_room chess ratings env stored socket id s).0
  unfolding leave_room
  leave_room-draining = in_cached_room-draining id _ _ _ s (emit-IsQuiet _) (emit-IsQuiet _) e

  disconnect-draining : Untouched s (disconnect chess env socket s).0
  unfolding disconnect on
  disconnect-draining = at (find (λ (r : Room chess). any (is_at socket) r.players) s.rooms)
    where
      at :
          (c : Option (Room chess))
          → Untouched s
              (on c
                (done tt)
                (λ room. room_task (done tt) (disconnect_live chess env socket room))
                s).0
      at none = done-IsQuiet s
      at (some room) =
          simp (room_task-draining (done tt) (disconnect_live chess env socket room) s e)
            (done-IsQuiet s)

-- While the process drains, a move, an end-of-game claim, a resignation, a rematch vote, a departure
-- and a disconnect change nothing, neither the tables nor the rooms nor the votes.
pub handlers-draining :
    (chess : ChessJs) (stored : MoveRow → chess.Request) (ratings : ℕ → ℕ → ℕ → ℕ × ℕ) (env : Env)
    (s : Server chess) (socket : ℕ) (id : Option ℕ) (request : chess.Request)
    → s.draining ≡ true
    → Untouched s (make_move chess ratings env stored socket id request s).0
      × Untouched s (game_over chess ratings env stored socket id s).0
      × Untouched s (resign_game chess ratings env stored socket id s).0
      × Untouched s (accept_rematch chess env stored socket id s).0
      × Untouched s (leave_room chess ratings env stored socket id s).0
      × Untouched s (disconnect chess env socket s).0
handlers-draining chess stored ratings env s socket id request e = (
  make_move-draining chess stored ratings env s e socket id request,
  game_over-draining chess stored ratings env s e socket id,
  resign_game-draining chess stored ratings env s e socket id,
  accept_rematch-draining chess stored ratings env s e socket id,
  leave_room-draining chess stored ratings env s e socket id,
  disconnect-draining chess stored ratings env s e socket id,
)

-- Why a move is refused before it reaches the database.
pub data Barred {chess : ChessJs} (socket : ℕ) (live : Room chess) : Type 0 where
  not_playing : is_playing live.status ≡ false → Barred socket live
  stranger : find (is_at socket) live.players ≡ none → Barred socket live
  not_turn :
      (p : Player)
      → find (is_at socket) live.players ≡ some p
      → same_color p.color live.turn ≡ false
      → Barred socket live

-- Once `make_move` has refreshed the room, nothing is changed, whatever is asked, if the game is not being
-- played, if the socket has no seat in the room, or if its seat is not the one to move.
pub move_live-Barred :
    (chess : ChessJs) (ratings : ℕ → ℕ → ℕ → ℕ × ℕ) (env : Env) (socket : ℕ)
    (request : chess.Request) (live : Room chess) (s : Server chess)
    → Barred socket live
    → Untouched s (move_live chess ratings env socket request live s).0
unfolding move_live on
move_live-Barred chess ratings env socket request live s (not_playing e) =
    simp (move_live, e) (done-IsQuiet s)
move_live-Barred chess ratings env socket request live s (stranger e) =
    elim (Bool-cases (is_playing live.status)) [
      | inr k ↦ simp (move_live, k) (done-IsQuiet s)
      | inl k ↦
          simp (move_live, k, e, on) (emit-IsQuiet (to_socket socket (error "Not your turn")) s)
    ]
move_live-Barred chess ratings env socket request live s (not_turn p e f) =
    elim (Bool-cases (is_playing live.status)) [
      | inr k ↦ simp (move_live, k) (done-IsQuiet s)
      | inl k ↦
          simp (move_live, k, e, on, f) (emit-IsQuiet (to_socket socket (error "Not your turn")) s)
    ]
