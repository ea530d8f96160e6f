-- ===== src/Rooms/SocketTests.antt =====
-- Sample sockets for the middleware and the chat of Chess-Backend/src/socket/gameSocket.js.
use end_to_end_kubernetes_ch.Base.{◌≡◌, ◌≢◌, ◌⊎◌, refl, true, none, some, List, [], ◌∷◌, arith}
use end_to_end_kubernetes_ch.Shutdown.{fresh}
use end_to_end_kubernetes_ch.Shutdown.Gates.{handshake_guard}
use end_to_end_kubernetes_ch.Accounts.Session.{active_session, authenticate}
use end_to_end_kubernetes_ch.Accounts.Handlers.{logs_in, logs_out, refresh_session}
use end_to_end_kubernetes_ch.Accounts.Tests.{ana_claims, lib, at, site, old_token}
use end_to_end_kubernetes_ch.Store.Tests.{tables, any_move, ten_points}
use end_to_end_kubernetes_ch.Rooms.{Server}
use end_to_end_kubernetes_ch.Rooms.Tests.{calm, stored, server_of, table_room}
use end_to_end_kubernetes_ch.Rooms.Chat.{send_message}
use end_to_end_kubernetes_ch.Rooms.CleanChat.{IsSilent, IsSaid, send_message-IsSaid}
use end_to_end_kubernetes_ch.Rooms.Refusals.{Untouched}
use end_to_end_kubernetes_ch.Rooms.Gate.{
  Packet, Process, moving, connect, receive, Step, request, connection, run_steps,
}
use end_to_end_kubernetes_ch.Rooms.Guarded.{logout-cuts_sockets}
use end_to_end_kubernetes_ch.Rooms.Admitted.{Barrier, IsServed, receive-IsServed}

abbrev pub table_server : Server any_move
table_server = record (server_of tables) { rooms = table_room ∷ [] }

-- " gg "
send_message-IsSaid_example :
    IsSilent any_move calm 200 3
      (32 ∷ 103 ∷ 103 ∷ 32 ∷ [])
      table_server
      (send_message any_move calm 200 (some 3) (32 ∷ 103 ∷ 103 ∷ 32 ∷ []) table_server).0
    ⊎ IsSaid any_move calm 200 3
        (32 ∷ 103 ∷ 103 ∷ 32 ∷ [])
        table_server
        (send_message any_move calm 200 (some 3) (32 ∷ 103 ∷ 103 ∷ 32 ∷ []) table_server).0
send_message-IsSaid_example =
    send_message-IsSaid any_move calm 200 3 (32 ∷ 103 ∷ 103 ∷ 32 ∷ []) table_server

-- One socket is open, under a token of the user who logs out.
abbrev pub process : Process any_move
process = record {
  site = site;
  control = fresh;
  sockets = (100, ana_claims) ∷ [];
  server = table_server;
}

abbrev pub move : Packet any_move
move = moving (some 3) "e4"

abbrev pub SampleStep : Type 0
SampleStep = Step lib any_move stored ten_points

abbrev pub afterwards : List SampleStep
afterwards = request (at 20) (logs_in "ana@x" "wrong") ∷ connection (at 30) 300 none ∷ []

abbrev pub cut_process : Process any_move
cut_process =
    run_steps lib any_move stored ten_points (request (at 10) (logs_out (some "jwt")) ∷ afterwards)
      process

logout-cuts_sockets_example :
    Untouched cut_process.server
      (receive lib any_move stored ten_points calm 100 true move cut_process).server
    × (authenticate lib (at 50) (some "jwt") cut_process.site ≢ some ana_claims)
    × ((refresh_session lib (at 50) (some "old") cut_process.site).1.status ≡ 401)
unfolding authenticate active_session connect handshake_guard
logout-cuts_sockets_example =
    logout-cuts_sockets lib any_move stored ten_points (at 10) (some "jwt") process ana_claims
      ana_claims 1 3 3 "old" old_token afterwards (at 50) (some "jwt") calm 100 true move refl refl
      refl (omega arith) refl refl (omega arith) refl refl refl

receive-IsServed_example :
    (Barrier lib any_move stored ten_points calm 100 true move process
      × Untouched process.server
          (receive lib any_move stored ten_points calm 100 true move process).server)
    ⊎ IsServed lib any_move stored ten_points calm 100 true move process
        (receive lib any_move stored ten_points calm 100 true move process).server
receive-IsServed_example =
    receive-IsServed lib any_move stored ten_points calm 100 true move process
