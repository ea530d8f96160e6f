-- ===== src/Engine/Occupied.antt =====
-- Attacks see of a piece in their way only that it is there and its colour: the piece that a pawn
-- becomes does not matter for the safety of its own king (`inChk` of chessEngine.js).
use end_to_end_kubernetes_ch.Base.{
  ℕ, ◌<◌, ◌≡◌, inl, inr, true, false, none, some, ◌==◌, ◌&&◌, arith, ℤ, ◌+ℤ◌, Bool-cases,
}
use end_to_end_kubernetes_ch.Engine.{
  Color, white, black, Kind, pawn, knight, bishop, rook, queen, king, piece, Cell, Board, Square,
  IsBoard, same_kind, is_color, opponent, cell, put,
}
use end_to_end_kubernetes_ch.Engine.Check.{in_chk}
use end_to_end_kubernetes_ch.Engine.Slides.{Ray, end, more}
use end_to_end_kubernetes_ch.Engine.Attack.{Attacks}
use end_to_end_kubernetes_ch.Engine.InCheck.{LoneKing, in_chk-Attacked}
use end_to_end_kubernetes_ch.Engine.Frame.{cell-put}
use end_to_end_kubernetes_ch.Engine.Kings.{put-LoneKing, has_king-is_king}

-- Two boards with the same empty squares and the same colours.
abbrev pub SameColors : Board → Board → Type 0
SameColors b b' =
    (i j : ℕ)
    → (cell b i j ≡ none → cell b' i j ≡ none)
      × ((col : Color) → is_color col (cell b i j) ≡ true → is_color col (cell b' i j) ≡ true)

module _ (b b' : Board) (same : SameColors b b') where
  Ray-same :
      (opp : Color) (dr dc : ℤ) (s : Square) (nr nc : ℤ)
      → Ray b opp dr dc s nr nc
      → Ray b' opp dr dc s nr nc
  Ray-same opp dr dc s nr nc (end _ _ e (inl k)) = end nr nc e (inl ((same s.0 s.1).0 k))
  Ray-same opp dr dc s nr nc (end _ _ e (inr k)) = end nr nc e (inr ((same s.0 s.1).1 opp k))
  Ray-same opp dr dc s nr nc (more _ _ t e k r) =
      more nr nc t e ((same t.0 t.1).0 k) (Ray-same opp dr dc s (nr +ℤ dr) (nc +ℤ dc) r)

  Attacks-same :
      (col : Color) (t : Kind) (r c : ℕ) (s : Square)
      → Attacks b col t r c s
      → Attacks b' col t r c s
  Attacks-same col pawn r c s a = a
  Attacks-same col knight r c s a = a
  Attacks-same col king r c s a = a
  Attacks-same col bishop r c s (d, m, a) = (d, m, Ray-same (opponent col) d.0 d.1 s _ _ a)
  Attacks-same col rook r c s (d, m, a) = (d, m, Ray-same (opponent col) d.0 d.1 s _ _ a)
  Attacks-same col queen r c s (d, m, a) = (d, m, Ray-same (opponent col) d.0 d.1 s _ _ a)

own_not_foe :
    (col : Color) (k w : Kind)
    → ◌≡◌ {A = Cell} (some (piece col k)) (some (piece (opponent col) w))
    → ⊥
own_not_foe white k w h = cc
own_not_foe black k w h = cc

-- Another piece of the same colour on a square, neither of the two being a king.
module _ (b : Board) (r c : ℕ) (col : Color) (t k : Kind) (shape : IsBoard b) (hr : r < 8)
    (hc : c < 8) (e : cell b r c ≡ some (piece col t)) where
  replaced-SameColors : SameColors (put b r c (some (piece col k))) b
  replaced-SameColors i j = elim (Bool-cases (r == i && c == j)) [
    | inl h ↦
        let p : r ≡ i = ground (arith, h) in
        let q : c ≡ j = ground (arith, h) in
        rw (cell-put b r c i j (some (piece col k)) shape hr hc, h, ← p, ← q, e)
          (λ n. cc, λ col' m. m)
    | inr h ↦ rw (cell-put b r c i j (some (piece col k)) shape hr hc, h) (λ n. n, λ col' m. m)
  ]

  pub replaced-in_chk :
      (s : Square)
      → LoneKing b col s
      → same_kind t king ≡ false
      → same_kind k king ≡ false
      → in_chk b col ≡ false
      → in_chk (put b r c (some (piece col k))) col ≡ false
  replaced-in_chk s lone nt nk safe =
      let lone' : LoneKing (put b r c (some (piece col k))) col s =
        put-LoneKing b r c (some (piece col k)) shape hr hc col s lone
          (rw e (has_king-is_king col (some (piece col t)) nt))
          (has_king-is_king col (some (piece col k)) nk) in
      elim (Bool-cases (in_chk (put b r c (some (piece col k))) col)) [
        | inr f ↦ f
        | inl f ↦
            let (a, on, (w, at_a, attack)) =
              (in_chk-Attacked (put b r c (some (piece col k))) col s lone').0 f in
            absurd (
              cc (
                safe,
                (in_chk-Attacked b col s lone).1 (
                  a,
                  on,
                  (
                    w,
                    foe_there a w at_a,
                    Attacks-same (put b r c (some (piece col k))) b replaced-SameColors
                        (opponent col) w a.0 a.1 s attack,
                  ),
                ),
              ))
      ]
    where
      foe_there :
          (a : Square) (w : Kind)
          → cell (put b r c (some (piece col k))) a.0 a.1 ≡ some (piece (opponent col) w)
          → cell b a.0 a.1 ≡ some (piece (opponent col) w)
      foe_there a w h = elim (Bool-cases (r == a.0 && c == a.1)) [
        | inl p ↦ absurd (
            own_not_foe col k w
              (rw (cell-put b r c a.0 a.1 (some (piece col k)) shape hr hc, p) at h))
        | inr p ↦ rw (cell-put b r c a.0 a.1 (some (piece col k)) shape hr hc, p) at h
      ]
