-- ===== src/Engine/Slides.antt =====
-- The loop `sl` of `rawMoves` against a ray: the squares in one direction up to the first piece.
use end_to_end_kubernetes_ch.Base.{
  ℕ, zero, suc, ◌+◌, ◌-◌, ◌<◌, ◌≤◌, ◌≡◌, refl, ◌⊎◌, inl, inr, ◌↔◌, true, Option, none, some, List,
  arith, ℤ, pos, negsuc, ◌+ℤ◌, Has, Option-cases,
}
use end_to_end_kubernetes_ch.Engine.{
  Color, white, black, piece, Cell, Board, Square, square?, is_color, cell,
}
use end_to_end_kubernetes_ch.Engine.Moves.{slide_at, slide_from, slide, sl}

-- From `nr`, `nc` on, direction `dr`, `dc`: `s` lies on the ray, all squares before it are empty,
-- and it is empty itself or holds a piece of colour `opp`.
pub data Ray (b : Board) (opp : Color) (dr dc : ℤ) (s : Square) : ℤ → ℤ → Type 0 where
  end :
      (nr nc : ℤ)
      → square? nr nc ≡ some s
      → ((cell b s.0 s.1 ≡ none) ⊎ (is_color opp (cell b s.0 s.1) ≡ true))
      → Ray b opp dr dc s nr nc
  more :
      (nr nc : ℤ) (t : Square)
      → square? nr nc ≡ some t
      → cell b t.0 t.1 ≡ none
      → Ray b opp dr dc s (nr +ℤ dr) (nc +ℤ dc)
      → Ray b opp dr dc s nr nc

-- The loop may stop at this square: it is empty or holds a piece of colour `opp`.
abbrev pub Takes : Board → Color → Square → Type 0
Takes b opp s = (cell b s.0 s.1 ≡ none) ⊎ (is_color opp (cell b s.0 s.1) ≡ true)

slide_at-Has :
    (opp : Color) (s t : Square) (x : Cell) (rest : List Square)
    → Has s (slide_at opp t x rest)
    → ((s ≡ t) × ((x ≡ none) ⊎ (is_color opp x ≡ true))) ⊎ ((x ≡ none) × Has s rest)
slide_at-Has opp s t none rest (inl e) = inl (e, inl refl)
slide_at-Has opp s t none rest (inr m) = inr (refl, m)
slide_at-Has opp s t (some (piece white k)) rest h = ground arith
slide_at-Has opp s t (some (piece black k)) rest h = ground arith

Has-slide_at :
    (opp : Color) (t : Square) (x : Cell) (rest : List Square)
    → (x ≡ none) ⊎ (is_color opp x ≡ true)
    → Has t (slide_at opp t x rest)
Has-slide_at opp t none rest h = inl refl
Has-slide_at opp t (some p) rest (inl e) = cc
Has-slide_at opp t (some p) rest (inr e) = rw e (inl refl)

module _ (b : Board) (opp : Color) (dr dc : ℤ) where
  slide_from-Ray :
      (nr nc : ℤ) (s : Square) (o : Option Square) (rest : List Square)
      → square? nr nc ≡ o
      → (Has s rest → Ray b opp dr dc s (nr +ℤ dr) (nc +ℤ dc))
      → Has s (slide_from b opp o rest)
      → Ray b opp dr dc s nr nc
  slide_from-Ray nr nc s none rest e later h = elim h [ ]
  slide_from-Ray nr nc s (some t) rest e later h =
      elim (slide_at-Has opp s t (cell b t.0 t.1) rest h) [
        | inl (q, k) ↦ end nr nc (rw q e) (rw q k)
        | inr (q, m) ↦ more nr nc t e q (later m)
      ]

  slide-Ray :
      (fuel : ℕ) (nr nc : ℤ) (s : Square)
      → Has s (slide fuel b opp dr dc nr nc)
      → Ray b opp dr dc s nr nc
  unfolding slide
  slide-Ray zero nr nc s h = elim h [ ]
  slide-Ray (suc fuel) nr nc s h =
      slide_from-Ray nr nc s (square? nr nc) _ refl (slide-Ray fuel (nr +ℤ dr) (nc +ℤ dc) s) h

-- How far a coordinate may still go in its direction.
abbrev room : ℤ → ℤ → ℕ
room (pos zero) n = 0
room (pos (suc d)) (pos n) = 8 - n
room (pos (suc d)) (negsuc n) = 0
room (negsuc d) (pos n) = n + 1
room (negsuc d) (negsuc n) = 0

-- `1` or `-1`
abbrev pub IsStep : ℤ → Type 0
IsStep d = (d ≡ pos 1) ⊎ (d ≡ negsuc 0)

room_pos : (d n : ℤ) (k : ℕ) → IsStep d → n ≡ pos k → k < 8 → 0 < room d n
room_pos d n k (inl e) h lt = rw (e, h) (omega arith)
room_pos d n k (inr e) h lt = rw (e, h) (omega arith)

room_next :
    (d n : ℤ) (k f : ℕ) → IsStep d → n ≡ pos k → k < 8 → room d n ≤ suc f → room d (n +ℤ d) ≤ f
unfolding ◌+ℤ◌
room_next d n k f (inl e) h lt r = rw (e, h) (ground (arith, rw (e, h) at r))
room_next d n zero f (inr e) h lt r = rw (e, h) (ground arith)
room_next d n (suc k) f (inr e) h lt r = rw (e, h) (ground (arith, rw (e, h) at r))

room_le : (d : ℤ) (k : ℕ) → IsStep d → k < 8 → room d (pos k) ≤ 8
room_le d k (inl e) lt = rw e (omega arith)
room_le d k (inr e) lt = rw e (omega arith)

pub square?-coords :
    (nr nc : ℤ) {t : Square}
    → square? nr nc ≡ some t
    → (nr ≡ pos t.0) × (nc ≡ pos t.1) × (t.0 < 8) × (t.1 < 8)
square?-coords (pos r) (pos c) h = ground arith
square?-coords (pos r) (negsuc c) h = cc
square?-coords (negsuc r) (pos c) h = cc
square?-coords (negsuc r) (negsuc c) h = cc

-- Enough fuel to leave the board on one of the two axes.
abbrev Enough : ℤ → ℤ → ℕ → ℤ → ℤ → Type 0
Enough dr dc fuel nr nc = (IsStep dr × (room dr nr ≤ fuel)) ⊎ (IsStep dc × (room dc nc ≤ fuel))

Enough-zero : (dr dc nr nc : ℤ) {t : Square} → square? nr nc ≡ some t → ¬ Enough dr dc 0 nr nc
Enough-zero dr dc nr nc {t} e (inl (d, r)) =
    let (p, _, lt, _) = square?-coords nr nc e in omega (arith, room_pos dr nr t.0 d p lt)
Enough-zero dr dc nr nc {t} e (inr (d, r)) =
    let (_, p, _, lt) = square?-coords nr nc e in omega (arith, room_pos dc nc t.1 d p lt)

Enough-step :
    (dr dc nr nc : ℤ) (f : ℕ) {t : Square}
    → square? nr nc ≡ some t
    → Enough dr dc (suc f) nr nc
    → Enough dr dc f (nr +ℤ dr) (nc +ℤ dc)
Enough-step dr dc nr nc f {t} e (inl (d, r)) =
    let (p, _, lt, _) = square?-coords nr nc e in inl (d, room_next dr nr t.0 f d p lt r)
Enough-step dr dc nr nc f {t} e (inr (d, r)) =
    let (_, p, _, lt) = square?-coords nr nc e in inr (d, room_next dc nc t.1 f d p lt r)

module _ (b : Board) (opp : Color) (dr dc : ℤ) where
  Ray-slide :
      (fuel : ℕ) (nr nc : ℤ) (s : Square)
      → Enough dr dc fuel nr nc
      → Ray b opp dr dc s nr nc
      → Has s (slide fuel b opp dr dc nr nc)
  unfolding slide
  Ray-slide zero nr nc s enough (end _ _ e k) = absurd (Enough-zero dr dc nr nc e enough)
  Ray-slide zero nr nc s enough (more _ _ t e k r) = absurd (Enough-zero dr dc nr nc e enough)
  Ray-slide (suc fuel) nr nc s enough (end _ _ e k) =
      rw (e, slide_from) (Has-slide_at opp s (cell b s.0 s.1) _ k)
  Ray-slide (suc fuel) nr nc s enough (more _ _ t e k r) =
      rw (e, slide_from, k, slide_at)
        (inr (Ray-slide fuel _ _ s (Enough-step dr dc nr nc fuel e enough) r))

  -- With fuel to leave the board the loop ends by its own test: any two such fuels agree.
  slide_same :
      (f g : ℕ) (nr nc : ℤ)
      → Enough dr dc f nr nc
      → Enough dr dc g nr nc
      → slide f b opp dr dc nr nc ≡ slide g b opp dr dc nr nc
  unfolding slide
  slide_same zero zero nr nc hf hg = refl
  slide_same zero (suc g) nr nc hf hg = elim (Option-cases (square? nr nc)) [
    | inl e ↦ rw (e, slide_from)
    | inr (t, e) ↦ absurd (Enough-zero dr dc nr nc e hf)
  ]
  slide_same (suc f) zero nr nc hf hg = elim (Option-cases (square? nr nc)) [
    | inl e ↦ rw (e, slide_from)
    | inr (t, e) ↦ absurd (Enough-zero dr dc nr nc e hg)
  ]
  slide_same (suc f) (suc g) nr nc hf hg = elim (Option-cases (square? nr nc)) [
    | inl e ↦ rw (e, slide_from)
    | inr (t, e) ↦ rw (
        slide_same f g (nr +ℤ dr) (nc +ℤ dc) (Enough-step dr dc nr nc f e hf)
          (Enough-step dr dc nr nc g e hg))
  ]

-- From a square of the board, eight rounds are enough.
Enough-sl :
    (dr dc : ℤ) (r c : ℕ)
    → IsStep dr ⊎ IsStep dc
    → r < 8
    → c < 8
    → Enough dr dc 8 (pos r +ℤ dr) (pos c +ℤ dc)
Enough-sl dr dc r c (inl d) hr hc =
    inl (d, omega (arith, room_next dr (pos r) r 7 d refl hr (room_le dr r d hr)))
Enough-sl dr dc r c (inr d) hr hc =
    inr (d, omega (arith, room_next dc (pos c) c 7 d refl hc (room_le dc c d hc)))

-- `sl` from a square of the board, in a direction with a step on some axis, pushes exactly the
-- squares of the ray: those reached over empty squares that are empty or hold a piece of colour
-- `opp`. The eight rounds of fuel give what any larger number gives.
pub sl-Ray :
    (b : Board) (opp : Color) (r c : ℕ) (dr dc : ℤ)
    → IsStep dr ⊎ IsStep dc
    → r < 8
    → c < 8
    → ((s : Square) → Has s (sl b opp r c (dr, dc)) ↔ Ray b opp dr dc s (pos r +ℤ dr) (pos c +ℤ dc))
      × ((k : ℕ) → slide (k + 8) b opp dr dc (pos r +ℤ dr) (pos c +ℤ dc) ≡ sl b opp r c (dr, dc))
unfolding sl
sl-Ray b opp r c dr dc d hr hc = (
  λ s. (slide-Ray b opp dr dc 8 _ _ s, Ray-slide b opp dr dc 8 _ _ s enough),
  λ k. slide_same b opp dr dc (k + 8) 8 _ _ (more_fuel k) enough,
)
  where
    enough : Enough dr dc 8 (pos r +ℤ dr) (pos c +ℤ dc)
    enough = Enough-sl dr dc r c d hr hc

    more_fuel : (k : ℕ) → Enough dr dc (k + 8) (pos r +ℤ dr) (pos c +ℤ dc)
    more_fuel k = elim enough [
      | inl (a, h) ↦ inl (a, omega arith)
      | inr (a, h) ↦ inr (a, omega arith)
    ]
