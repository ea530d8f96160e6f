-- ===== src/Rooms/Play.antt =====
-- `make_move`, `game_over` and `resign` of Chess-Backend/src/socket/gameSocket.js. The room of the
-- socket's own choice is looked up in the cache only.
use Prim.Native.String.{String}
use end_to_end_kubernetes_ch.Base.{
  ℕ, not, Option, none, some, List, [], ◌∷◌, ◌++◌, if◌then◌else◌, find, any, length,
}
use end_to_end_kubernetes_ch.Engine.{Color, same_color, opponent}
use end_to_end_kubernetes_ch.Store.{GameResult, checkmate, draw, resign, MoveRow}
use end_to_end_kubernetes_ch.Store.Finalize.{Player, Match, finalize_game}
use end_to_end_kubernetes_ch.Store.Persist.{ChessJs, Persisted, persist_move}
use end_to_end_kubernetes_ch.Rooms.{
  over, is_playing, is_finished_room, Env, Room, Task, done, ◌>>=◌, on, emit, lookup, keep, commit,
  room_task, is_at, name_of_color, to_socket, to_room, error, move_made, game_ended,
}
use end_to_end_kubernetes_ch.Rooms.Build.{refresh}
use end_to_end_kubernetes_ch.Rooms.Join.{seconds_since}

-- `getCachedRoom`, for a normalized id or none, then the task of the room.
unfoldable pub in_cached_room :
    {chess : ChessJs}
    → Option ℕ
    → Task chess (Unit {0})
    → (Room chess → Task chess (Unit {0}))
    → Task chess (Unit {0})
in_cached_room id missing found =
    on id missing (λ wanted. do cached ← lookup wanted; on cached missing found)

module _ (chess : ChessJs) (ratings : ℕ → ℕ → ℕ → ℕ × ℕ) (env : Env) where
  abbrev pub match_of : Room chess → Match
  match_of live = record {
    game_id = live.game_id;
    players = live.players;
    total_moves = length live.moves;
    created_at = live.created_at;
  }

  -- `finalizeGameAtomic` and, if it settled, the room's end and its message: the room afterwards, or
  -- none for an exception.
  unfoldable pub end_game :
      Room chess → GameResult → Option Color → Option String → Task chess (Option (Room chess))
  end_game live result winner winner_name = do
    finalized ← commit env (finalize_game ratings (match_of live) result winner env.now)
    on finalized (done none) (λ s.
        if s.settled
        then (do
          let closed : Room chess = record live {
            status = over;
            game_result = some result;
            game_winner = winner;
          }
          u ← keep closed
          v ← emit (
              to_room live.id (
                game_ended (some result) winner_name (length live.moves)
                  (seconds_since live.created_at env.now) s.elo_change))
          done (some closed))
        else done (some live))

  -- `result` and `winnerColor` of a finished position.
  abbrev pub verdict_of : Room chess → GameResult × Option Color
  verdict_of live =
      if chess.is_checkmate live.position
      then (checkmate, some (opponent live.turn))
      else (draw, none)

  unfoldable pub end_by_rules : Room chess → Task chess (Unit {0}) → Task chess (Unit {0})
  end_by_rules live refused = do
    let v : GameResult × Option Color = verdict_of live
    closed ← end_game live v.0 v.1 (name_of_color v.1 live.players)
    on closed refused (λ r. done tt)

  -- After `persistMoveAtomic`
  unfoldable pub after_move : ℕ → Room chess → Option (Persisted chess) → Task chess (Unit {0})
  after_move socket live none = emit (to_socket socket (error "Unable to record move"))
  after_move socket live (some none) = emit (to_socket socket (error "Illegal move"))
  after_move socket live (some (some (p, row))) = do
    let moved : Room chess = record live {
      position = p;
      board = chess.fen p;
      turn = chess.turn p;
      moves = live.moves ++ row ∷ [];
    }
    u ← keep moved
    v ← emit (to_room live.id (move_made moved))
    (if chess.is_game_over p
        then end_by_rules moved
            (emit (to_socket socket (error "Move recorded; unable to finalize game")))
        else done tt)

  -- The task of `make_move`
  unfoldable pub move_live : ℕ → chess.Request → Room chess → Task chess (Unit {0})
  move_live socket request live =
      if not (is_playing live.status)
      then done tt
      else on (find (is_at socket) live.players) (emit (to_socket socket (error "Not your turn")))
          (λ player.
            if not (same_color player.color live.turn)
            then emit (to_socket socket (error "Not your turn"))
            else do
              persisted ← commit env (persist_move chess live.game_id player.color request)
              after_move socket live persisted)

  -- The task of `game_over`
  unfoldable pub game_over_live : ℕ → Room chess → Task chess (Unit {0})
  game_over_live socket live =
      if not (any (is_at socket) live.players)
      then emit (to_socket socket (error "Not authorized"))
      else if not (chess.is_game_over live.position)
      then emit (to_socket socket (error "Game not over"))
      else if is_finished_room live.status
      then done tt
      else end_by_rules live (emit (to_socket socket (error "Unable to finalize game")))

  -- The other player's colour and name, if there is one.
  abbrev pub opponent_of : Color → List Player → Option Player
  opponent_of col players = find (λ (p : Player). not (same_color p.color col)) players

  abbrev pub color_of : Option Player → Option Color
  color_of none = none
  color_of (some p) = some p.color

  abbrev pub name_of : Option Player → Option String
  name_of none = none
  name_of (some p) = some p.name

  -- `finalizeGameAtomic(live, "resign", …)` and what follows it
  unfoldable pub give_up : Player → Room chess → Task chess (Option (Room chess))
  give_up caller live =
      let other = opponent_of caller.color live.players in
      end_game live resign (color_of other) (name_of other)

  -- The task of `resign`
  unfoldable pub resign_live : ℕ → Room chess → Task chess (Unit {0})
  resign_live socket live =
      if not (is_playing live.status)
      then done tt
      else on (find (is_at socket) live.players) (emit (to_socket socket (error "Not authorized")))
          (λ caller. do
            closed ← give_up caller live
            on closed (emit (to_socket socket (error "Unable to resign"))) (λ r. done tt))

  module _ (stored : MoveRow → chess.Request) where
    unfoldable pub make_move : ℕ → Option ℕ → chess.Request → Task chess (Unit {0})
    make_move socket id request =
        in_cached_room id (emit (to_socket socket (error "Game not available"))) (λ room.
          room_task (emit (to_socket socket (error "Unable to process move"))) (do
            fresh ← refresh chess stored env room
            on fresh (emit (to_socket socket (error "Game not available")))
                (move_live socket request)))

    unfoldable pub game_over : ℕ → Option ℕ → Task chess (Unit {0})
    game_over socket id = in_cached_room id (done tt) (λ room.
        room_task (emit (to_socket socket (error "Unable to finalize game")))
          (do fresh ← refresh chess stored env room; on fresh (done tt) (game_over_live socket)))

    unfoldable pub resign_game : ℕ → Option ℕ → Task chess (Unit {0})
    resign_game socket id = in_cached_room id (done tt) (λ room.
        room_task (emit (to_socket socket (error "Unable to resign")))
          (do fresh ← refresh chess stored env room; on fresh (done tt) (resign_live socket)))
