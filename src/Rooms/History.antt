-- ===== src/Rooms/History.antt =====
-- What holds over every history of a server process (`initSocket` of
-- Chess-Backend/src/socket/gameSocket.js).
use end_to_end_kubernetes_ch.Base.{
  ℕ, zero, suc, ◌≡◌, refl, ap, subst, inl, inr, false, none, some, List, [], ◌∷◌, get_elem?,
}
use end_to_end_kubernetes_ch.Store.{is_in_progress, GameRow, MoveRow, Tables, abandon, abandon_one}
use end_to_end_kubernetes_ch.Store.Persist.{ChessJs}
use end_to_end_kubernetes_ch.Rooms.{Env, Server}
use end_to_end_kubernetes_ch.Rooms.Law.{TableLaw}
use end_to_end_kubernetes_ch.Rooms.Frozen.{
  RowKept, Extends, Kept, Extends-refl, Extends-trans, Extends-live, create-Kept, claim_black-Kept,
  persist_move-Kept, finalize_game-Kept, start_rematch-Kept,
}
use end_to_end_kubernetes_ch.Rooms.Events.{Event, handle_all, handle_all-Keeps}

abandon_one-Kept : (id : ℕ) (db : Tables) → Kept db (abandon_one id db)
unfolding abandon_one
abandon_one-Kept id db = Extends-live id abandon db.games

frozen_law : (chess : ChessJs) → TableLaw chess
frozen_law chess = record {
  Rel = Kept;
  same = λ db. Extends-refl db.games;
  next = λ a b c h k. Extends-trans a.games b.games c.games h k;
  abandons = abandon_one-Kept;
  creates = create-Kept;
  claims = claim_black-Kept;
  persists = persist_move-Kept chess;
  finalizes = finalize_game-Kept;
  rematches = start_rematch-Kept;
}

Extends-get_elem? :
    (gs gs' : List GameRow) (i : ℕ) (g : GameRow)
    → Extends gs gs'
    → get_elem? gs i ≡ some g
    → (g' : GameRow) × (get_elem? gs' i ≡ some g') × RowKept g g'
Extends-get_elem? [] gs' i g h e = cc
Extends-get_elem? (x ∷ gs) [] i g h e = absurd h
Extends-get_elem? (x ∷ gs) (y ∷ gs') zero g h e =
    (y, refl, subst (λ o. elim o [ none ↦ Unit | some b ↦ RowKept b y ]) e h.0)
Extends-get_elem? (x ∷ gs) (y ∷ gs') (suc i) g h e = Extends-get_elem? gs gs' i g h.1 e

-- A game that is over stays as it is: whatever events reach the server, in any number and order and
-- with any failures of the database, the adapter and the vote store, its row keeps its players,
-- status, result, winner and board, and at most loses its room id to a rematch.
pub handle_all-Frozen :
    (chess : ChessJs) (stored : MoveRow → chess.Request) (ratings : ℕ → ℕ → ℕ → ℕ × ℕ)
    (history : List (Env × Event chess)) (s : Server chess) (i : ℕ) (g : GameRow)
    → get_elem? s.tables.games i ≡ some g
    → is_in_progress g.status ≡ false
    → (g' : GameRow) × (get_elem? (handle_all chess stored ratings history s).tables.games i
        ≡ some g')
      × (g' ≡ record g { room_id = g'.room_id })
unfolding frozen_law
handle_all-Frozen chess stored ratings history s i g e stopped =
    let (g', e', k) =
      Extends-get_elem? s.tables.games (handle_all chess stored ratings history s).tables.games i g
        (handle_all-Keeps chess stored ratings (frozen_law chess) history s) e in
    elim k [
      | inl running ↦ absurd (cc (stopped, ap is_in_progress running))
      | inr same ↦ (g', e', same)
    ]
