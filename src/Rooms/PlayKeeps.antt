-- ===== src/Rooms/PlayKeeps.antt =====
-- `make_move`, `game_over` and `resign` of Chess-Backend/src/socket/gameSocket.js keep every law of the
-- transactions.
use Prim.Native.String.{String}
use end_to_end_kubernetes_ch.Base.{ℕ, Option, none, some}
use end_to_end_kubernetes_ch.Engine.{Color}
use end_to_end_kubernetes_ch.Store.{GameResult, MoveRow, resign}
use end_to_end_kubernetes_ch.Store.Finalize.{Player, finalize_game}
use end_to_end_kubernetes_ch.Store.Persist.{ChessJs, Persisted, persist_move}
use end_to_end_kubernetes_ch.Rooms.{Env, Room, Task, commit}
use end_to_end_kubernetes_ch.Rooms.Play.{
  match_of, end_game, end_by_rules, after_move, move_live, game_over_live, opponent_of, color_of,
  name_of, give_up, resign_live, make_move, game_over, resign_game,
}
use end_to_end_kubernetes_ch.Rooms.Law.{TableLaw, Keeps, commit-Keeps}
use end_to_end_kubernetes_ch.Rooms.JoinKeeps.{refresh-Keeps, in_cached_room-Keeps, task_rules}

module _ {chess : ChessJs} (law : TableLaw chess) (ratings : ℕ → ℕ → ℕ → ℕ × ℕ) (env : Env) where
  open law use {Rel, same}

  finalize-Keeps :
      (live : Room chess) (result : GameResult) (winner : Option Color) (now : ℕ)
      → Keeps law
          (commit env (finalize_game ratings (match_of chess ratings env live) result winner now))
  finalize-Keeps live result winner now =
      commit-Keeps law env
        (finalize_game ratings (match_of chess ratings env live) result winner now)
        (law.finalizes ratings (match_of chess ratings env live) result winner now)

  end_game-Keeps :
      (live : Room chess) (result : GameResult) (winner : Option Color) (name : Option String)
      → Keeps law (end_game chess ratings env live result winner name)
  unfolding end_game
  end_game-Keeps live result winner name = search (task_rules, finalize-Keeps) depth 12

  end_by_rules-Keeps :
      (live : Room chess) (refused : Task chess (Unit {0}))
      → Keeps law refused
      → Keeps law (end_by_rules chess ratings env live refused)
  unfolding end_by_rules
  end_by_rules-Keeps live refused h = search (task_rules, end_game-Keeps) depth 12

  after_move-Keeps :
      (socket : ℕ) (live : Room chess) (v : Option (Persisted chess))
      → Keeps law (after_move chess ratings env socket live v)
  unfolding after_move
  after_move-Keeps socket live none = search (task_rules) depth 12
  after_move-Keeps socket live (some none) = search (task_rules) depth 12
  after_move-Keeps socket live (some (some (p, m))) =
      search (task_rules, end_by_rules-Keeps) depth 12

  persist-Keeps :
      (game : ℕ) (col : Color) (request : chess.Request)
      → Keeps law (commit env (persist_move chess game col request))
  persist-Keeps game col request =
      commit-Keeps law env (persist_move chess game col request) (law.persists game col request)

  move_live-Keeps :
      (socket : ℕ) (request : chess.Request) (live : Room chess)
      → Keeps law (move_live chess ratings env socket request live)
  unfolding move_live
  move_live-Keeps socket request live =
      search (task_rules, persist-Keeps, after_move-Keeps) depth 12

  game_over_live-Keeps :
      (socket : ℕ) (live : Room chess) → Keeps law (game_over_live chess ratings env socket live)
  unfolding game_over_live
  game_over_live-Keeps socket live = search (task_rules, end_by_rules-Keeps) depth 12

  pub give_up-Keeps :
      (caller : Player) (live : Room chess) → Keeps law (give_up chess ratings env caller live)
  unfolding give_up
  give_up-Keeps caller live =
      end_game-Keeps live resign
        (color_of chess ratings env (opponent_of chess ratings env caller.color live.players))
        (name_of chess ratings env (opponent_of chess ratings env caller.color live.players))

  resign_live-Keeps :
      (socket : ℕ) (live : Room chess) → Keeps law (resign_live chess ratings env socket live)
  unfolding resign_live
  resign_live-Keeps socket live = search (task_rules, give_up-Keeps) depth 12

  module _ (stored : MoveRow → chess.Request) where
    pub make_move-Keeps :
        (socket : ℕ) (id : Option ℕ) (request : chess.Request)
        → Keeps law (make_move chess ratings env stored socket id request)
    unfolding make_move
    make_move-Keeps socket id request =
        search (task_rules, in_cached_room-Keeps, refresh-Keeps, move_live-Keeps) depth 12

    pub game_over-Keeps :
        (socket : ℕ) (id : Option ℕ) → Keeps law (game_over chess ratings env stored socket id)
    unfolding game_over
    game_over-Keeps socket id =
        search (task_rules, in_cached_room-Keeps, refresh-Keeps, game_over_live-Keeps) depth 12

    pub resign_game-Keeps :
        (socket : ℕ) (id : Option ℕ) → Keeps law (resign_game chess ratings env stored socket id)
    unfolding resign_game
    resign_game-Keeps socket id =
        search (task_rules, in_cached_room-Keeps, refresh-Keeps, resign_live-Keeps) depth 12
