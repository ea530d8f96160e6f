-- ===== src/Engine/Captures.antt =====
-- A move of `rawMoves` (chessEngine.js) onto a piece of the other colour is an attack, so that no
-- legal move takes a king.
use end_to_end_kubernetes_ch.Base.{
  ℕ, ◌<◌, ◌≡◌, refl, inl, inr, true, false, Option, none, some, arith, ℤ, pos, negsuc, Has,
  Has-append, Has-append_left, Bool-cases,
}
use end_to_end_kubernetes_ch.Engine.{
  Color, Kind, pawn, knight, bishop, rook, queen, king, piece, Board, Square, Castling, is_color,
  is_king, opponent, cell,
}
use end_to_end_kubernetes_ch.Engine.Moves.{
  collect, hop, king_steps, castles, can_castle_king, can_castle_queen, castle_row, pawn_capture,
  pawn_pushes, piece_moves, raw_moves, is_empty, is_ep,
}
use end_to_end_kubernetes_ch.Engine.Check.{in_chk}
use end_to_end_kubernetes_ch.Engine.Slides.{IsStep}
use end_to_end_kubernetes_ch.Engine.Targets.{
  Castles, castles-Has, pawn_capture-Has, pawn_pushes-Has,
}
use end_to_end_kubernetes_ch.Engine.Attack.{Attacks, piece_moves-Attacks, not_empty}
use end_to_end_kubernetes_ch.Engine.InCheck.{
  LoneKing, OnBoard, in_chk-Attacked, raw_moves_at, opponent-opponent, is_king-is_color,
}
use end_to_end_kubernetes_ch.Engine.Safety.{EpIsEmpty}

ep_not_foe :
    (b : Board) (ep : Option Square) (foe : Color) (s : Square)
    → EpIsEmpty b ep
    → is_ep ep s ≡ true
    → is_color foe (cell b s.0 s.1) ≡ true
    → ⊥
ep_not_foe b none foe s h e m = cc
ep_not_foe b (some q) foe s h e m = let p : s ≡ q = ground (arith, e) in cc (h, rw p at m)

castle_not_foe :
    (b : Board) (col foe : Color) (r c : ℕ) (t : Castling) (s : Square)
    → Castles b col r c t s
    → is_color foe (cell b s.0 s.1) ≡ true
    → ⊥
unfolding can_castle_king can_castle_queen
castle_not_foe b col foe r c t s (er, ec, inl (e, k)) m =
    let free : is_empty (cell b (castle_row col) 6) ≡ true = ground (arith, k) in
    not_empty foe (cell b (castle_row col) 6) (rw e at m) free
castle_not_foe b col foe r c t s (er, ec, inr (e, k)) m =
    let free : is_empty (cell b (castle_row col) 2) ≡ true = ground (arith, k) in
    not_empty foe (cell b (castle_row col) 2) (rw e at m) free

module _ (b : Board) (col : Color) (r c : ℕ) (hr : r < 8) (hc : c < 8) (s : Square)
    (foe : is_color (opponent col) (cell b s.0 s.1) ≡ true) where
  capture-Attacks :
      (k : Kind) (ep : Option Square) (cast : Option Castling)
      → EpIsEmpty b ep
      → Has s (piece_moves b col k r c ep cast)
      → Attacks b col k r c s
  unfolding piece_moves
  capture-Attacks bishop ep cast he h = (piece_moves-Attacks b col r c hr hc s bishop foe).0 h
  capture-Attacks rook ep cast he h = (piece_moves-Attacks b col r c hr hc s rook foe).0 h
  capture-Attacks queen ep cast he h = (piece_moves-Attacks b col r c hr hc s queen foe).0 h
  capture-Attacks knight ep cast he h = (piece_moves-Attacks b col r c hr hc s knight foe).0 h
  capture-Attacks king ep cast he h = elim (Has-append s (collect (hop b col r c) king_steps) _ h) [
    | inl m ↦ (piece_moves-Attacks b col r c hr hc s king foe).0 (Has-append_left s _ _ m)
    | inr m ↦ castling cast m
  ]
    where
      castling : (t : Option Castling) → Has s (castles b col r c t) → Attacks b col king r c s
      castling none m = absurd (unfold castles in m)
      castling (some t) m =
          absurd (castle_not_foe b col (opponent col) r c t s ((castles-Has b col r c t s).0 m) foe)
  capture-Attacks pawn ep cast he h = elim (Has-append s (pawn_pushes b col r c) _ h) [
    | inl m ↦
        absurd (not_empty (opponent col) (cell b s.0 s.1) foe (pawn_pushes-Has b col r c s m).0)
    | inr m ↦ elim (Has-append s (pawn_capture b col r c ep (negsuc 0)) _ m) [
      | inl n ↦ capture (negsuc 0) (inr refl) n
      | inr n ↦ capture (pos 1) (inl refl) n
    ]
  ]
    where
      capture :
          (dc : ℤ) → IsStep dc → Has s (pawn_capture b col r c ep dc) → Attacks b col pawn r c s
      capture dc step n =
          let (o, q) = (pawn_capture-Has b col r c ep dc s).0 n in
          elim q [
            | inl taken ↦ (dc, step, o)
            | inr e ↦ absurd (ep_not_foe b ep (opponent col) s he e foe)
          ]

-- While the other side is not in check, no raw move takes its king.
pub raw_moves-no_king :
    (b : Board) (r c : ℕ) (ep : Option Square) (cast : Option Castling) (col : Color) (t : Kind)
    (s k : Square)
    → OnBoard (r, c)
    → cell b r c ≡ some (piece col t)
    → EpIsEmpty b ep
    → LoneKing b (opponent col) k
    → in_chk b (opponent col) ≡ false
    → Has s (raw_moves b r c ep cast)
    → is_king (opponent col) (cell b s.0 s.1) ≡ false
raw_moves-no_king b r c ep cast col t s k on e he lone safe h =
    elim (Bool-cases (is_king (opponent col) (cell b s.0 s.1))) [
      | inr q ↦ q
      | inl q ↦
          let sk : s ≡ k = lone.lone s q in
          let attack =
            capture-Attacks b col r c on.0 on.1 s
              (is_king-is_color (opponent col) (cell b s.0 s.1) q) t ep cast he
              (rw (raw_moves_at b r c ep cast col t e) at h) in
          absurd (
            cc (
              safe,
              (in_chk-Attacked b (opponent col) k lone).1
                  (rw opponent-opponent ((r, c), on, (t, e, rw (← sk) attack))),
            ))
    ]
