-- ===== src/Rooms/Rematch.antt =====
-- `accept_rematch` and `request_rematch` of Chess-Backend/src/socket/gameSocket.js, with the votes of
-- Chess-Backend/src/services/rematchVotes.js as a set of pairs of a game and a user.
use Prim.Native.String.{String}
use end_to_end_kubernetes_ch.Base.{
  ℕ, Bool, not, Option, none, some, List, [], ◌∷◌, ◌++◌, ◌&&◌, ◌||◌, ◌==◌, ltb, if◌then◌else◌, find,
  filter, any,
}
use end_to_end_kubernetes_ch.Engine.{Color, white, black, same_color, opponent}
use end_to_end_kubernetes_ch.Store.{
  GameRow, MoveRow, Tx, create, join_black_by_id, count_where, update_where, is_finished,
}
use end_to_end_kubernetes_ch.Store.Finalize.{Player}
use end_to_end_kubernetes_ch.Store.Persist.{ChessJs}
use end_to_end_kubernetes_ch.Rooms.{
  playing, is_finished_room, Env, Room, Task, done, ◌>>=◌, on, emit, keep, commit, room_task, is_at,
  all_present, to_socket, to_room, to_others, error, game_start, rematch_requested,
}
use end_to_end_kubernetes_ch.Rooms.Build.{refresh}
use end_to_end_kubernetes_ch.Rooms.Play.{in_cached_room}

-- `UPDATE games SET room_id=NULL WHERE id=$1 AND status='finished'`
abbrev pub is_over_game : ℕ → GameRow → Bool
is_over_game id g = g.id == id && is_finished g.status

abbrev pub without_room : GameRow → GameRow
without_room g = record g { room_id = none }

unfoldable pub release_room : ℕ → Tx (Unit {0})
release_room id db =
    if count_where (is_over_game id) db.games == 1
    then some (record db { games = update_where (is_over_game id) without_room db.games }, tt)
    else none

-- `Game.create` and `Game.joinBlackById` for the players of the next game
unfoldable pub seat_both : ℕ → Player → Player → String → ℕ → Tx GameRow
seat_both room w b fen now db = elim (create room w.user_id w.name fen now db) [
  | none ↦ none
  | some made ↦ elim (join_black_by_id (made.1).id b.user_id b.name made.0) [
    | none ↦ none
    | some seated ↦ some (seated.0, made.1)
  ]
]

-- The transaction of `accept_rematch`
unfoldable pub start_rematch : ℕ → ℕ → Player → Player → String → ℕ → Tx GameRow
start_rematch old room w b fen now db = elim (release_room old db) [
  | none ↦ none
  | some released ↦ seat_both room w b fen now released.0
]

abbrev pub has_vote : ℕ → ℕ → List (ℕ × ℕ) → Bool
has_vote game user votes = any (λ (v : ℕ × ℕ). v.0 == game && v.1 == user) votes

abbrev pub add_vote : ℕ → ℕ → List (ℕ × ℕ) → List (ℕ × ℕ)
add_vote game user votes = if has_vote game user votes then votes else votes ++ (game, user) ∷ []

-- `set.size`
abbrev pub vote_count : ℕ → List (ℕ × ℕ) → ℕ
vote_count game votes = count_where (λ (v : ℕ × ℕ). v.0 == game) votes

abbrev pub remove_vote : ℕ → ℕ → List (ℕ × ℕ) → List (ℕ × ℕ)
remove_vote game user votes = filter (λ (v : ℕ × ℕ). not (v.0 == game && v.1 == user)) votes

abbrev pub clear_votes : ℕ → List (ℕ × ℕ) → List (ℕ × ℕ)
clear_votes game votes = filter (λ (v : ℕ × ℕ). not (v.0 == game)) votes

-- `{ ...player, color: … }`
abbrev pub switch : List Player → List Player
switch [] = []
switch (p ∷ ps) = record p { color = opponent p.color } ∷ switch ps

abbrev pub seat_of : Color → List Player → Option Player
seat_of col players = find (λ (p : Player). same_color p.color col) players

module _ (chess : ChessJs) (env : Env) where
  -- `addVote`, with the size of the set
  unfoldable pub cast_vote : ℕ → ℕ → Task chess ℕ
  cast_vote game user s =
      let votes = add_vote game user s.votes in (record s { votes = votes }, vote_count game votes)

  unfoldable pub drop_votes : ℕ → Task chess (Unit {0})
  drop_votes game s =
      (if env.votes_down then s else record s { votes = clear_votes game s.votes }, tt)

  -- From `Game.runInTransaction` on
  unfoldable pub open_rematch : ℕ → Room chess → Player → Player → Task chess (Unit {0})
  open_rematch socket live w b = do
    started ← commit env (start_rematch live.game_id live.id w b (chess.fen chess.initial) env.now)
    on started (emit (to_socket socket (error "Unable to start rematch"))) (λ g.
        on (elim g.board_fen [ none ↦ some chess.initial | some f ↦ chess.load f ])
          (emit (to_socket socket (error "Unable to start rematch")))
          (λ p. do
            let next : Room chess = record live {
              game_id = g.id;
              players = switch live.players;
              position = p;
              board = chess.fen p;
              turn = white;
              moves = [];
              created_at = env.now;
              status = playing;
              game_result = none;
              game_winner = none;
            }
            u ← keep next
            v ← drop_votes live.game_id
            emit (to_room live.id (game_start next))))

  -- After the vote
  unfoldable pub decide_rematch : ℕ → Room chess → ℕ → Task chess (Unit {0})
  decide_rematch socket live count =
      if ltb count 2 || not (all_present env live.players)
      then done tt
      else on (seat_of white (switch live.players))
          (emit (to_socket socket (error "Unable to start rematch")))
          (λ w.
            on (seat_of black (switch live.players))
              (emit (to_socket socket (error "Unable to start rematch")))
              (λ b. open_rematch socket live w b))

  -- The task of `accept_rematch`
  unfoldable pub rematch_live : ℕ → Room chess → Task chess (Unit {0})
  rematch_live socket live =
      if not (is_finished_room live.status)
      then emit (to_socket socket (error "Not authorized"))
      else on (find (is_at socket) live.players) (emit (to_socket socket (error "Not authorized")))
          (λ voter.
            on voter.user_id (emit (to_socket socket (error "Unable to start rematch"))) (λ user.
              if env.votes_down
              then emit (to_socket socket (error "Rematch temporarily unavailable"))
              else do count ← cast_vote live.game_id user; decide_rematch socket live count))

  module _ (stored : MoveRow → chess.Request) where
    unfoldable pub accept_rematch : ℕ → Option ℕ → Task chess (Unit {0})
    accept_rematch socket id = in_cached_room id (done tt) (λ room.
        room_task (emit (to_socket socket (error "Unable to start rematch"))) (do
          fresh ← refresh chess stored env room
          on fresh (emit (to_socket socket (error "Not authorized"))) (rematch_live socket)))

  unfoldable pub request_rematch : ℕ → Option ℕ → Task chess (Unit {0})
  request_rematch socket id = in_cached_room id (done tt) (λ room.
      if any (is_at socket) room.players && is_finished_room room.status
      then emit (to_others socket room.id rematch_requested)
      else done tt)
