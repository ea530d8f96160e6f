-- ===== src/Engine/Safety.antt =====
-- Where the moves of `rawMoves` end: on the board, and never on a piece of the mover's colour.
use end_to_end_kubernetes_ch.Base.{
  ℕ, ◌<◌, ◌≡◌, refl, ◌⊎◌, inl, inr, true, false, Option, none, some, List, arith, ℤ, pos, negsuc,
  ◌+ℤ◌, Has, Has-append,
}
use end_to_end_kubernetes_ch.Engine.{
  Color, white, black, Kind, pawn, knight, bishop, rook, queen, king, piece, Cell, Board, Square,
  Castling, square?, is_color, opponent, cell,
}
use end_to_end_kubernetes_ch.Engine.Moves.{
  sl, hop, collect, knight_steps, king_steps, forward, forward_twice, can_castle_king,
  can_castle_queen, pawn_pushes, pawn_capture, castles, castle_row, piece_moves, raw_moves,
  is_empty, is_ep,
}
use end_to_end_kubernetes_ch.Engine.Slides.{Ray, end, more, square?-coords}
use end_to_end_kubernetes_ch.Engine.Targets.{
  Castles, castles-Has, collect-Has, Offset, hop-Has, pawn_capture-Has, pawn_pushes-Has,
}
use end_to_end_kubernetes_ch.Engine.Attack.{not_own, lines, sl-OnRay}
use end_to_end_kubernetes_ch.Engine.InCheck.{OnBoard, raw_moves_at}

-- A square on the board without a piece of colour `col`.
abbrev pub Target : Board → Color → Square → Type 0
Target b col s = OnBoard s × (is_color col (cell b s.0 s.1) ≡ false)

-- The en passant square, if there is one, is empty.
abbrev pub EpIsEmpty : Board → Option Square → Type 0
EpIsEmpty b none = Unit
EpIsEmpty b (some e) = cell b e.0 e.1 ≡ none

square?-OnBoard : (r c : ℤ) {s : Square} → square? r c ≡ some s → OnBoard s
square?-OnBoard r c e = let (_, _, hr, hc) = square?-coords r c e in (hr, hc)

Offset-OnBoard : (r c : ℕ) (d : ℤ × ℤ) (s : Square) → Offset r c d s → OnBoard s
Offset-OnBoard r c d s e = square?-OnBoard (pos r +ℤ d.0) (pos c +ℤ d.1) e

is_color-none : (col : Color) (x : Cell) → x ≡ none → is_color col x ≡ false
is_color-none col x e = rw e

empty_not_own : (col : Color) (x : Cell) → is_empty x ≡ true → is_color col x ≡ false
empty_not_own col none h = refl
empty_not_own col (some p) h = cc

row-OnBoard_of : (col : Color) (c : ℕ) → c < 8 → OnBoard (castle_row col, c)
row-OnBoard_of white c h = omega arith
row-OnBoard_of black c h = omega arith

module _ (b : Board) (col : Color) where
  Ray-Target :
      (dr dc : ℤ) (s : Square) (nr nc : ℤ) → Ray b (opponent col) dr dc s nr nc → Target b col s
  Ray-Target dr dc s nr nc (end _ _ e (inl k)) =
      (square?-OnBoard nr nc e, is_color-none col (cell b s.0 s.1) k)
  Ray-Target dr dc s nr nc (end _ _ e (inr k)) =
      (square?-OnBoard nr nc e, not_own col (cell b s.0 s.1) k)
  Ray-Target dr dc s nr nc (more _ _ t e k r) = Ray-Target dr dc s (nr +ℤ dr) (nc +ℤ dc) r

  ep-Target :
      (ep : Option Square) (s : Square)
      → EpIsEmpty b ep
      → is_ep ep s ≡ true
      → is_color col (cell b s.0 s.1) ≡ false
  ep-Target none s h e = cc
  ep-Target (some q) s h e = is_color-none col (cell b s.0 s.1) (ground arith)

  row-OnBoard : (c : ℕ) → c < 8 → OnBoard (castle_row col, c)
  row-OnBoard c h = row-OnBoard_of col c h

  Castles-Target : (r c : ℕ) (t : Castling) (s : Square) → Castles b col r c t s → Target b col s
  unfolding can_castle_king can_castle_queen
  Castles-Target r c t s (er, ec, inl (e, k)) =
      rw e (row-OnBoard 6 (omega arith), empty_not_own col _ (ground arith))
  Castles-Target r c t s (er, ec, inr (e, k)) =
      rw e (row-OnBoard 2 (omega arith), empty_not_own col _ (ground arith))

  collect-sl-Target :
      (k : Kind) (r c : ℕ) (s : Square)
      → r < 8
      → c < 8
      → Has s (collect (sl b (opponent col) r c) (lines k))
      → Target b col s
  collect-sl-Target k r c s hr hc h =
      let (d, m, hd) = collect-Has _ s (lines k) h in
      Ray-Target d.0 d.1 s _ _ ((sl-OnRay b col r c hr hc s k d m).0 hd)

  hops-Target :
      (r c : ℕ) (s : Square) (ds : List (ℤ × ℤ))
      → Has s (collect (hop b col r c) ds)
      → Target b col s
  hops-Target r c s ds h =
      let (d, m, hd) = collect-Has _ s ds h in
      let (o, q) = (hop-Has b col r c d s).0 hd in (Offset-OnBoard r c d s o, q)

  pawn-Target :
      (r c : ℕ) (ep : Option Square) (s : Square)
      → EpIsEmpty b ep
      → Has s (pawn_pushes b col r c)
        ⊎ (Has s (pawn_capture b col r c ep (negsuc 0)) ⊎ Has s (pawn_capture b col r c ep (pos 1)))
      → Target b col s
  pawn-Target r c ep s h (inl m) =
      let (e, o) = pawn_pushes-Has b col r c s m in
      (
        elim o [
          | inl q ↦ square?-OnBoard (pos r +ℤ forward col) (pos c) q
          | inr q ↦ square?-OnBoard (pos r +ℤ forward_twice col) (pos c) q
        ],
        empty_not_own col (cell b s.0 s.1) e,
      )
  pawn-Target r c ep s h (inr m) = elim m [
    | inl n ↦ capture (negsuc 0) n
    | inr n ↦ capture (pos 1) n
  ]
    where
      capture : (dc : ℤ) → Has s (pawn_capture b col r c ep dc) → Target b col s
      capture dc n =
          let (o, q) = (pawn_capture-Has b col r c ep dc s).0 n in
          (
            Offset-OnBoard r c (forward col, dc) s o,
            elim q [ inl foe ↦ not_own col (cell b s.0 s.1) foe | inr e ↦ ep-Target ep s h e ],
          )

  piece_moves-Target :
      (k : Kind) (r c : ℕ) (ep : Option Square) (cast : Option Castling) (s : Square)
      → r < 8
      → c < 8
      → EpIsEmpty b ep
      → Has s (piece_moves b col k r c ep cast)
      → Target b col s
  unfolding piece_moves
  piece_moves-Target bishop r c ep cast s hr hc he h = collect-sl-Target bishop r c s hr hc h
  piece_moves-Target rook r c ep cast s hr hc he h = collect-sl-Target rook r c s hr hc h
  piece_moves-Target queen r c ep cast s hr hc he h = collect-sl-Target queen r c s hr hc h
  piece_moves-Target knight r c ep cast s hr hc he h = hops-Target r c s knight_steps h
  piece_moves-Target king r c ep cast s hr hc he h =
      elim (Has-append s (collect (hop b col r c) king_steps) _ h) [
        | inl m ↦ hops-Target r c s king_steps m
        | inr m ↦ castling cast m
      ]
    where
      castling : (t : Option Castling) → Has s (castles b col r c t) → Target b col s
      castling none m = absurd (unfold castles in m)
      castling (some t) m = Castles-Target r c t s ((castles-Has b col r c t s).0 m)
  piece_moves-Target pawn r c ep cast s hr hc he h =
      pawn-Target r c ep s he (elim (Has-append s (pawn_pushes b col r c) _ h) [
        | inl m ↦ inl m
        | inr m ↦ inr (Has-append s (pawn_capture b col r c ep (negsuc 0)) _ m)
      ])

-- From a square of the board, every move of `rawMoves` ends on the board and not on a piece of the
-- mover's own colour, if the en passant square is empty.
pub raw_moves-Target :
    (b : Board) (r c : ℕ) (ep : Option Square) (cast : Option Castling) (col : Color) (k : Kind)
    (s : Square)
    → r < 8
    → c < 8
    → cell b r c ≡ some (piece col k)
    → EpIsEmpty b ep
    → Has s (raw_moves b r c ep cast)
    → Target b col s
raw_moves-Target b r c ep cast col k s hr hc e he h =
    piece_moves-Target b col k r c ep cast s hr hc he (rw (raw_moves_at b r c ep cast col k e) at h)
