-- ===== src/Rooms/LeaveKeeps.antt =====
-- `accept_rematch`, `request_rematch`, `leave_room` and `disconnect` of
-- Chess-Backend/src/socket/gameSocket.js keep every law of the transactions.
use Prim.Native.String.{String}
use end_to_end_kubernetes_ch.Base.{ℕ, inl, inr, Bool-cases, Option, none, some, List, find, any}
use end_to_end_kubernetes_ch.Store.{MoveRow}
use end_to_end_kubernetes_ch.Store.Finalize.{Player}
use end_to_end_kubernetes_ch.Store.Persist.{ChessJs}
use end_to_end_kubernetes_ch.Rooms.{Env, Room, done, commit, room_task, is_at}
use end_to_end_kubernetes_ch.Rooms.Play.{in_cached_room}
use end_to_end_kubernetes_ch.Rooms.Law.{
  TableLaw, Keeps, done-Keeps, on-Keeps, room_task-Keeps, commit-Keeps,
}
use end_to_end_kubernetes_ch.Rooms.Rematch.{
  start_rematch, cast_vote, drop_votes, open_rematch, decide_rematch, rematch_live, accept_rematch,
  request_rematch,
}
use end_to_end_kubernetes_ch.Rooms.Chat.{send_message}
use end_to_end_kubernetes_ch.Rooms.Leave.{
  withdraw_vote, unseat, drop_if_empty, finish_leave, unseat_cached, leave_blind, disconnect_live,
  disconnect, leave_live, leave_room,
}
use end_to_end_kubernetes_ch.Rooms.JoinKeeps.{refresh-Keeps, in_cached_room-Keeps, task_rules}
use end_to_end_kubernetes_ch.Rooms.PlayKeeps.{give_up-Keeps}

module _ {chess : ChessJs} (law : TableLaw chess) (env : Env) where
  open law use {Rel, same}

  cast_vote-Keeps : (game user : ℕ) → Keeps law (cast_vote chess env game user)
  unfolding cast_vote
  cast_vote-Keeps game user s = same s.tables

  drop_votes-Keeps : (game : ℕ) → Keeps law (drop_votes chess env game)
  unfolding drop_votes
  drop_votes-Keeps game s = elim (Bool-cases env.votes_down) [
    | inl e ↦ simp e (same s.tables)
    | inr e ↦ simp e (same s.tables)
  ]

  withdraw_vote-Keeps : (game : ℕ) (user : Option ℕ) → Keeps law (withdraw_vote chess env game user)
  unfolding withdraw_vote
  withdraw_vote-Keeps game none s = same s.tables
  withdraw_vote-Keeps game (some user) s = elim (Bool-cases env.votes_down) [
    | inl e ↦ simp e (same s.tables)
    | inr e ↦ simp e (same s.tables)
  ]

  rematch-Keeps :
      (old room : ℕ) (w b : Player) (fen : String) (now : ℕ)
      → Keeps law (commit env (start_rematch old room w b fen now))
  rematch-Keeps old room w b fen now =
      commit-Keeps law env (start_rematch old room w b fen now) (law.rematches old room w b fen now)

  open_rematch-Keeps :
      (socket : ℕ) (live : Room chess) (w b : Player)
      → Keeps law (open_rematch chess env socket live w b)
  unfolding open_rematch
  open_rematch-Keeps socket live w b = search (task_rules, rematch-Keeps, drop_votes-Keeps) depth 12

  decide_rematch-Keeps :
      (socket : ℕ) (live : Room chess) (count : ℕ)
      → Keeps law (decide_rematch chess env socket live count)
  unfolding decide_rematch
  decide_rematch-Keeps socket live count = search (task_rules, open_rematch-Keeps) depth 12

  rematch_live-Keeps :
      (socket : ℕ) (live : Room chess) → Keeps law (rematch_live chess env socket live)
  unfolding rematch_live
  rematch_live-Keeps socket live =
      search (task_rules, cast_vote-Keeps, decide_rematch-Keeps) depth 12

  pub request_rematch-Keeps :
      (socket : ℕ) (id : Option ℕ) → Keeps law (request_rematch chess env socket id)
  unfolding request_rematch in_cached_room
  request_rematch-Keeps socket id = search (task_rules) depth 12

  pub send_message-Keeps :
      (socket : ℕ) (id : Option ℕ) (text : List ℕ)
      → Keeps law (send_message chess env socket id text)
  unfolding send_message in_cached_room
  send_message-Keeps socket id text = search (task_rules) depth 12

  unseat-Keeps :
      (socket : ℕ) (player : Player) (live : Room chess)
      → Keeps law (unseat chess env socket player live)
  unfolding unseat
  unseat-Keeps socket player live = search (task_rules, withdraw_vote-Keeps) depth 12

  drop_if_empty-Keeps : (live : Room chess) → Keeps law (drop_if_empty chess env live)
  unfolding drop_if_empty
  drop_if_empty-Keeps live = search (task_rules) depth 12

  finish_leave-Keeps :
      (socket : ℕ) (player : Player) (live : Room chess)
      → Keeps law (finish_leave chess env socket player live)
  unfolding finish_leave
  finish_leave-Keeps socket player live =
      search (task_rules, unseat-Keeps, drop_if_empty-Keeps) depth 12

  unseat_cached-Keeps :
      (socket : ℕ) (room : Room chess) → Keeps law (unseat_cached chess env socket room)
  unfolding unseat_cached
  unseat_cached-Keeps socket room = search (task_rules) depth 12

  leave_blind-Keeps :
      (socket : ℕ) (room : Room chess) → Keeps law (leave_blind chess env socket room)
  unfolding leave_blind
  leave_blind-Keeps socket room = search (task_rules, unseat_cached-Keeps) depth 12

  disconnect_live-Keeps :
      (socket : ℕ) (live : Room chess) → Keeps law (disconnect_live chess env socket live)
  unfolding disconnect_live
  disconnect_live-Keeps socket live =
      search (task_rules, unseat-Keeps, drop_if_empty-Keeps) depth 12

  pub disconnect-Keeps : (socket : ℕ) → Keeps law (disconnect chess env socket)
  unfolding disconnect
  disconnect-Keeps socket s =
      on-Keeps law (find (λ (r : Room chess). any (is_at socket) r.players) s.rooms) (done tt)
        (λ room. room_task (done tt) (disconnect_live chess env socket room)) (done-Keeps law tt)
        (λ room.
          room_task-Keeps law (done tt) (disconnect_live chess env socket room) (done-Keeps law tt)
            (disconnect_live-Keeps socket room))
        s

  module _ (stored : MoveRow → chess.Request) where
    pub accept_rematch-Keeps :
        (socket : ℕ) (id : Option ℕ) → Keeps law (accept_rematch chess env stored socket id)
    unfolding accept_rematch
    accept_rematch-Keeps socket id =
        search (task_rules, in_cached_room-Keeps, refresh-Keeps, rematch_live-Keeps) depth 12

    module _ (ratings : ℕ → ℕ → ℕ → ℕ × ℕ) where
      leave_live-Keeps :
          (socket : ℕ) (live : Room chess) → Keeps law (leave_live chess ratings env socket live)
      unfolding leave_live
      leave_live-Keeps socket live = search (task_rules, give_up-Keeps, finish_leave-Keeps) depth 12

      pub leave_room-Keeps :
          (socket : ℕ) (id : Option ℕ) → Keeps law (leave_room chess ratings env stored socket id)
      unfolding leave_room
      leave_room-Keeps socket id =
          search
            (task_rules, in_cached_room-Keeps, refresh-Keeps, leave_blind-Keeps, leave_live-Keeps)
            depth 12
