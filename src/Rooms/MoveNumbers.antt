-- ===== src/Rooms/MoveNumbers.antt =====
-- The numbering of the moves of every game over every history of a server process
-- (Chess-Backend/src/socket/gameSocket.js).
use Prim.Native.String.{String}
use end_to_end_kubernetes_ch.Base.{
  ℕ, ◌≡◌, ◌∙◌, refl, sym, ap, subst, inl, inr, Option, List, ◌==◌, Bool-cases, Option-cases, filter,
}
use end_to_end_kubernetes_ch.Engine.{Color}
use end_to_end_kubernetes_ch.Store.{
  GameResult, MoveRow, Tables, create, claim_black, join_black_by_id, abandon_one, count_where,
  find_by_room_id, one_row, is_open,
}
use end_to_end_kubernetes_ch.Store.Finalize.{Match, Player, finalize_game}
use end_to_end_kubernetes_ch.Store.Persist.{ChessJs}
use end_to_end_kubernetes_ch.Store.Numbers.{IsNumbered, persist_move-IsNumbered}
use end_to_end_kubernetes_ch.Store.Once.{was_over, was_unrated, was_rated, finalize_game-Finalized}
use end_to_end_kubernetes_ch.Store.Seats.{claim_black_lem}
use end_to_end_kubernetes_ch.Store.Settled.{some_pair-inj}
use end_to_end_kubernetes_ch.Rooms.{Env, Server}
use end_to_end_kubernetes_ch.Rooms.Rematch.{start_rematch, seat_both, release_room, is_over_game}
use end_to_end_kubernetes_ch.Rooms.Law.{TableLaw, KeepsTx}
use end_to_end_kubernetes_ch.Rooms.Events.{Event, handle_all, handle_all-Keeps}

-- The table of moves is not touched.
abbrev SameMoves : Tables → Tables → Type 0
SameMoves db db' = db'.moves ≡ db.moves

moves_of_eq : (db x y : Tables) → y ≡ x → SameMoves db x → SameMoves db y
moves_of_eq db x y e h = ap (λ (t : Tables). t.moves) e ∙ h

create-SameMoves :
    (id : ℕ) (user : Option ℕ) (name fen : String) (now : ℕ)
    → KeepsTx SameMoves (create id user name fen now)
unfolding create
create-SameMoves id user name fen now db db' g h = elim (Option-cases (find_by_room_id id db)) [
  | inl e ↦ moves_of_eq db _ db' (some_pair-inj (rw (create, e) at h)).0 refl
  | inr (row, e) ↦ absurd (cc (rw (create, e) at h))
]

join_black-SameMoves :
    (id : ℕ) (user : Option ℕ) (name : String) → KeepsTx SameMoves (join_black_by_id id user name)
unfolding join_black_by_id
join_black-SameMoves id user name db db' g h =
    elim (Option-cases (one_row (filter (is_open id) db.games))) [
      | inl e ↦ absurd (cc (rw (join_black_by_id, e) at h))
      | inr (row, e) ↦ moves_of_eq db _ db' (some_pair-inj (rw (join_black_by_id, e) at h)).0 refl
    ]

claim_black-SameMoves :
    (id : ℕ) (user : Option ℕ) (name : String) → KeepsTx SameMoves (claim_black id user name)
claim_black-SameMoves id user name db db' seat h =
    let (g, e, c) = claim_black_lem id user name db h in
    elim c [
      | inl (k, p, r) ↦ moves_of_eq db db db' p refl
      | inr (k, p, r) ↦ moves_of_eq db _ db' p refl
    ]

finalize_game-SameMoves :
    (ratings : ℕ → ℕ → ℕ → ℕ × ℕ) (m : Match) (result : GameResult) (winner : Option Color)
    (now : ℕ)
    → KeepsTx SameMoves (finalize_game ratings m result winner now)
finalize_game-SameMoves ratings m result winner now db db' s h =
    elim (finalize_game-Finalized ratings m result winner now db h) [
      | was_over e p r ↦ moves_of_eq db db db' p refl
      | was_unrated e f p r ↦ moves_of_eq db _ db' p refl
      | was_rated w b wu bu e f ne ew eb st ↦ st.6
    ]

release_room-SameMoves : (id : ℕ) → KeepsTx SameMoves (release_room id)
unfolding release_room
release_room-SameMoves id db db' u h =
    elim (Bool-cases (count_where (is_over_game id) db.games == 1)) [
      | inr e ↦ absurd (cc (rw e at h))
      | inl e ↦ moves_of_eq db _ db' (some_pair-inj (rw e at h)).0 refl
    ]

seat_both-SameMoves :
    (room : ℕ) (w b : Player) (fen : String) (now : ℕ)
    → KeepsTx SameMoves (seat_both room w b fen now)
unfolding seat_both
seat_both-SameMoves room w b fen now db db' g h =
    elim (Option-cases (create room w.user_id w.name fen now db)) [
      | inl e ↦ absurd (cc (rw (seat_both, e) at h))
      | inr (made, e) ↦ elim (Option-cases (join_black_by_id (made.1).id b.user_id b.name made.0)) [
        | inl f ↦ absurd (cc (rw (seat_both, e, f) at h))
        | inr (seated, f) ↦
            moves_of_eq db seated.0 db' (some_pair-inj (rw (seat_both, e, f) at h)).0 (
              join_black-SameMoves (made.1).id b.user_id b.name made.0 seated.0 seated.1 f
              ∙ create-SameMoves room w.user_id w.name fen now db made.0 made.1 e)
      ]
    ]

start_rematch-SameMoves :
    (old room : ℕ) (w b : Player) (fen : String) (now : ℕ)
    → KeepsTx SameMoves (start_rematch old room w b fen now)
unfolding start_rematch
start_rematch-SameMoves old room w b fen now db db' g h =
    elim (Option-cases (release_room old db)) [
      | inl e ↦ absurd (cc (rw (start_rematch, e) at h))
      | inr (released, e) ↦
          seat_both-SameMoves room w b fen now released.0 db' g (rw (start_rematch, e) at h)
          ∙ release_room-SameMoves old db released.0 released.1 e
    ]

-- Numbered moves stay numbered.
abbrev StaysNumbered : Tables → Tables → Type 0
StaysNumbered db db' = IsNumbered db.moves → IsNumbered db'.moves

stays : (db db' : Tables) → SameMoves db db' → StaysNumbered db db'
stays db db' e n = subst IsNumbered (sym e) n

numbers_law : (chess : ChessJs) → TableLaw chess
unfolding abandon_one
numbers_law chess = record {
  Rel = StaysNumbered;
  same = λ db n. n;
  next = λ a b c h k n. k (h n);
  abandons = λ id db n. n;
  creates = λ id user name fen now db db' a h.
      stays db db' (create-SameMoves id user name fen now db db' a h);
  claims = λ id user name db db' a h. stays db db' (claim_black-SameMoves id user name db db' a h);
  persists = λ game col request db db' a h. persist_move-IsNumbered chess game col request db h;
  finalizes = λ ratings m result winner now db db' a h.
      stays db db' (finalize_game-SameMoves ratings m result winner now db db' a h);
  rematches = λ old room w b fen now db db' a h.
      stays db db' (start_rematch-SameMoves old room w b fen now db db' a h);
}

-- If the moves of every game are numbered 1, 2, 3, … in the order of the table, they are so after
-- any events, in any number and order and with any failures around them.
pub handle_all-IsNumbered :
    (chess : ChessJs) (stored : MoveRow → chess.Request) (ratings : ℕ → ℕ → ℕ → ℕ × ℕ)
    (history : List (Env × Event chess)) (s : Server chess)
    → IsNumbered s.tables.moves
    → IsNumbered (handle_all chess stored ratings history s).tables.moves
unfolding numbers_law
handle_all-IsNumbered chess stored ratings history s =
    handle_all-Keeps chess stored ratings (numbers_law chess) history s
