-- ===== src/Engine/Attack.antt =====
-- `rawMoves` against a geometric description of attack: steps, rays and pawn captures.
use end_to_end_kubernetes_ch.Base.{
  ℕ, ◌<◌, ◌≡◌, refl, ◌⊎◌, inl, inr, ◌↔◌, true, false, none, some, List, [], ◌++◌, arith, ℤ, pos,
  negsuc, ◌+ℤ◌, Has, Has-append, Has-append_left, Has-append_right, All, All-append, All-Has,
}
use end_to_end_kubernetes_ch.Engine.{
  Color, white, black, Kind, pawn, knight, bishop, rook, queen, king, piece, Cell, Board, Square,
  is_color, opponent, cell,
}
use end_to_end_kubernetes_ch.Engine.Moves.{
  sl, hop, collect, knight_steps, king_steps, diagonals, straights, forward, pawn_pushes,
  pawn_capture, castles, piece_moves, is_empty,
}
use end_to_end_kubernetes_ch.Engine.Slides.{Ray, IsStep, sl-Ray}
use end_to_end_kubernetes_ch.Engine.Targets.{
  collect-Has, Has-collect, Offset, hop-Has, pawn_capture-Has, pawn_pushes-Has,
}

-- The directions in which a kind slides.
abbrev pub lines : Kind → List (ℤ × ℤ)
lines pawn = []
lines knight = []
lines bishop = diagonals
lines rook = straights
lines queen = diagonals ++ straights
lines king = []

-- A piece of kind `k` and colour `col` on `r`, `c` attacks the square `s`: a pawn its two squares
-- diagonally ahead, a knight and a king their steps, the others along a ray.
abbrev pub Attacks : Board → Color → Kind → ℕ → ℕ → Square → Type 0
Attacks b col pawn r c s = (dc : ℤ) × IsStep dc × Offset r c (forward col, dc) s
Attacks b col knight r c s = (d : ℤ × ℤ) × Has d knight_steps × Offset r c d s
Attacks b col king r c s = (d : ℤ × ℤ) × Has d king_steps × Offset r c d s
Attacks b col k r c s =
    (d : ℤ × ℤ) × Has d (lines k) × Ray b (opponent col) d.0 d.1 s (pos r +ℤ d.0) (pos c +ℤ d.1)

pub not_own : (col : Color) (x : Cell) → is_color (opponent col) x ≡ true → is_color col x ≡ false
not_own white (some (piece black k)) h = refl
not_own black (some (piece white k)) h = refl
not_own _ _ h = ground arith

pub not_empty : (col : Color) (x : Cell) → is_color col x ≡ true → is_empty x ≡ true → ⊥
not_empty col none h e = cc
not_empty col (some p) h e = cc

-- Every direction of a sliding piece has a step on some axis.
abbrev pub HasStep : ℤ × ℤ → Type 0
HasStep d = IsStep d.0 ⊎ IsStep d.1

diagonals_step : All HasStep diagonals
diagonals_step = (inl (inr refl), (inl (inr refl), (inl (inl refl), (inl (inl refl), tt))))

straights_step : All HasStep straights
straights_step = (inl (inr refl), (inl (inl refl), (inr (inr refl), (inr (inl refl), tt))))

pub lines_step : (k : Kind) → All HasStep (lines k)
lines_step pawn = tt
lines_step knight = tt
lines_step king = tt
lines_step bishop = diagonals_step
lines_step rook = straights_step
lines_step queen = All-append HasStep diagonals straights diagonals_step straights_step

module _ (b : Board) (col : Color) (r c : ℕ) (hr : r < 8) (hc : c < 8) (s : Square) where
  -- The rays of a list of directions, each of which is one of the kind's lines.
  abbrev pub OnRay : ℤ × ℤ → Type 0
  OnRay d = Ray b (opponent col) d.0 d.1 s (pos r +ℤ d.0) (pos c +ℤ d.1)

  pub sl-OnRay :
      (k : Kind) (d : ℤ × ℤ) → Has d (lines k) → Has s (sl b (opponent col) r c d) ↔ OnRay d
  sl-OnRay k d m =
      (sl-Ray b (opponent col) r c d.0 d.1 (All-Has _ d (lines k) (lines_step k) m) hr hc).0 s

  collect-lines :
      (k : Kind)
      → Has s (collect (sl b (opponent col) r c) (lines k))
        ↔ ((d : ℤ × ℤ) × Has d (lines k) × OnRay d)
  collect-lines k = (
    λ h. let (d, m, hd) = collect-Has _ s (lines k) h in (d, m, (sl-OnRay k d m).0 hd),
    λ a. Has-collect _ s (lines k) a.0 a.1 ((sl-OnRay k a.0 a.1).1 a.2),
  )

  collect-hops :
      (ds : List (ℤ × ℤ))
      → is_color col (cell b s.0 s.1) ≡ false
      → Has s (collect (hop b col r c) ds) ↔ ((d : ℤ × ℤ) × Has d ds × Offset r c d s)
  collect-hops ds foe = (
    λ h. let (d, m, hd) = collect-Has _ s ds h in (d, m, ((hop-Has b col r c d s).0 hd).0),
    λ a. Has-collect _ s ds a.0 a.1 ((hop-Has b col r c a.0 s).1 (a.2, foe)),
  )

  capture_from :
      (dc : ℤ)
      → IsStep dc
      → Has s (pawn_capture b col r c none dc)
      → (d : ℤ) × IsStep d × Offset r c (forward col, d) s
  capture_from dc d h = (dc, d, ((pawn_capture-Has b col r c none dc s).0 h).0)

  pawn_moves-Attacks :
      is_color (opponent col) (cell b s.0 s.1) ≡ true
      → Has s (piece_moves b col pawn r c none none) ↔ Attacks b col pawn r c s
  unfolding piece_moves
  pawn_moves-Attacks foe = (fro, back)
    where
      captures : ℤ → List Square
      captures dc = pawn_capture b col r c none dc

      fro :
          Has s (pawn_pushes b col r c ++ (captures (negsuc 0) ++ captures (pos 1)))
          → Attacks b col pawn r c s
      fro h = elim (Has-append s (pawn_pushes b col r c) _ h) [
        | inl m ↦
            absurd (not_empty (opponent col) (cell b s.0 s.1) foe (pawn_pushes-Has b col r c s m).0)
        | inr m ↦ elim (Has-append s (captures (negsuc 0)) _ m) [
          | inl l ↦ capture_from (negsuc 0) (inr refl) l
          | inr l ↦ capture_from (pos 1) (inl refl) l
        ]
      ]

      back :
          Attacks b col pawn r c s
          → Has s (pawn_pushes b col r c ++ (captures (negsuc 0) ++ captures (pos 1)))
      back (dc, st, o) = Has-append_right s (pawn_pushes b col r c) _ (elim st [
        | inl e ↦
            Has-append_right s (captures (negsuc 0)) _
              ((pawn_capture-Has b col r c none (pos 1) s).1 (rw (← e) o, inl foe))
        | inr e ↦
            Has-append_left s (captures (negsuc 0)) _
              ((pawn_capture-Has b col r c none (negsuc 0) s).1 (rw (← e) o, inl foe))
      ])

  -- A raw move onto a piece of the other colour is an attack, and conversely. Castling and en
  -- passant take no part: `inChk` passes `null` for both.
  pub piece_moves-Attacks :
      (k : Kind)
      → is_color (opponent col) (cell b s.0 s.1) ≡ true
      → Has s (piece_moves b col k r c none none) ↔ Attacks b col k r c s
  unfolding piece_moves castles
  piece_moves-Attacks bishop foe = collect-lines bishop
  piece_moves-Attacks rook foe = collect-lines rook
  piece_moves-Attacks queen foe = collect-lines queen
  piece_moves-Attacks knight foe = collect-hops knight_steps (not_own col (cell b s.0 s.1) foe)
  piece_moves-Attacks pawn foe = pawn_moves-Attacks foe
  piece_moves-Attacks king foe = (
    λ h. elim (Has-append s (collect (hop b col r c) king_steps) _ h) [
      | inl m ↦ (collect-hops king_steps (not_own col (cell b s.0 s.1) foe)).0 m
      | inr m ↦ absurd m
    ],
    λ a. Has-append_left s _ _ ((collect-hops king_steps (not_own col (cell b s.0 s.1) foe)).1 a),
  )
