-- ===== src/Game/CastlingMoves.antt =====
-- When `getLegal` offers to castle.
use end_to_end_kubernetes_ch.Base.{
  ℕ, ◌<◌, ◌≡◌, refl, sym, ap, ap₂, subst, Bool, ◌&&◌, ◌⊎◌, inl, inr, ◌↔◌, true, false, Option, none,
  some, List, ◌++◌, arith, if◌then◌else◌, ◌==◌, ℤ, pos, negsuc, ◌+ℤ◌, Has, Has-append,
  Has-append_right, All, All-Has,
}
use end_to_end_kubernetes_ch.Engine.{
  Color, king, piece, Cell, Board, Square, Castling, cell, put, square?,
}
use end_to_end_kubernetes_ch.Engine.Moves.{
  is_empty, king_side, queen_side, app_mv, castle_row, can_castle_king, can_castle_queen, castles,
  collect, hop, king_steps, piece_moves, raw_moves,
}
use end_to_end_kubernetes_ch.Engine.Check.{in_chk, move_rook, take_ep, is_safe, get_legal}
use end_to_end_kubernetes_ch.Engine.Targets.{collect-Has, hop-Has, Offset, Castles, castles-Has}
use end_to_end_kubernetes_ch.Engine.Slides.{square?-coords}
use end_to_end_kubernetes_ch.Engine.InCheck.{raw_moves_at}
use end_to_end_kubernetes_ch.Game.Legality.{get_legal_iff}

-- Reached from column 4 in one step of a king.
abbrev Near : ℕ → ℤ × ℤ → Type 0
Near r d = (s : Square) → Offset r 4 d s → (2 < s.1) × (s.1 < 6)

near_column :
    (x : ℤ) (c : ℕ) (s : Square)
    → 2 < c
    → c < 6
    → square? x (pos c) ≡ some s
    → (2 < s.1) × (s.1 < 6)
near_column x c s lo hi e = ground (arith, square?-coords x (pos c) e)

king_steps-Near : (r : ℕ) → All (Near r) king_steps
unfolding ◌+ℤ◌
king_steps-Near r = (
  at (pos r +ℤ negsuc 0) 3 (omega arith) (omega arith),
  (
    at (pos r +ℤ negsuc 0) 4 (omega arith) (omega arith),
    (
      at (pos r +ℤ negsuc 0) 5 (omega arith) (omega arith),
      (
        at (pos r +ℤ pos 0) 3 (omega arith) (omega arith),
        (
          at (pos r +ℤ pos 0) 5 (omega arith) (omega arith),
          (
            at (pos r +ℤ pos 1) 3 (omega arith) (omega arith),
            (
              at (pos r +ℤ pos 1) 4 (omega arith) (omega arith),
              (at (pos r +ℤ pos 1) 5 (omega arith) (omega arith), tt),
            ),
          ),
        ),
      ),
    ),
  ),
)
  where
    at :
        (x : ℤ) (c : ℕ)
        → 2 < c
        → c < 6
        → (s : Square) → square? x (pos c) ≡ some s
        → (2 < s.1) × (s.1 < 6)
    at x c lo hi s e = near_column x c s lo hi e

free2 :
    (right : Bool) (x y : Cell)
    → ((right && (is_empty x && is_empty y)) ≡ true) ↔ ((right ≡ true) × (x ≡ none) × (y ≡ none))
free2 true none none = (λ h. (refl, refl, refl), λ h. refl)
free2 false x y = (λ h. cc, λ h. cc (h.0))
free2 true (some p) y = (λ h. cc, λ h. absurd (cc (h.1)))
free2 true none (some q) = (λ h. cc, λ h. absurd (cc (h.2)))

free3 :
    (right : Bool) (x y z : Cell)
    → ((right && (is_empty x && (is_empty y && is_empty z))) ≡ true)
      ↔ ((right ≡ true) × (x ≡ none) × (y ≡ none) × (z ≡ none))
free3 right none y z =
    let (fro, back) = free2 right y z in
    (λ h. let (r, p, q) = fro h in (r, refl, p, q), λ (r, o, p, q). back (r, p, q))
free3 true (some p) y z = (λ h. cc, λ h. absurd (cc (h.1)))
free3 false (some p) y z = (λ h. cc, λ h. cc (h.0))

module _ (b : Board) (col : Color) (ep : Option Square) (t : Castling) where
  -- A raw move of the king from its home that leaves the three columns around it is a castling.
  raw_castle :
      (m : Square)
      → cell b (castle_row col) 4 ≡ some (piece col king)
      → (m.1 ≡ 6) ⊎ (m.1 ≡ 2)
      → Has m (raw_moves b (castle_row col) 4 ep (some t)) ↔ Castles b col (castle_row col) 4 t m
  unfolding piece_moves
  raw_castle m e far =
      rw (raw_moves_at b (castle_row col) 4 ep (some t) col king e, piece_moves) (fro, back)
    where
      steps : List Square
      steps = collect (hop b col (castle_row col) 4) king_steps

      not_near : Has m steps → ⊥
      not_near h =
          let (d, hd, hm) = collect-Has (hop b col (castle_row col) 4) m king_steps h in
          let (o, _) = (hop-Has b col (castle_row col) 4 d m).0 hm in
          omega (
            arith,
            far,
            All-Has (Near (castle_row col)) d king_steps (king_steps-Near (castle_row col)) hd m o,
          )

      fro :
          Has m (steps ++ castles b col (castle_row col) 4 (some t))
          → Castles b col (castle_row col) 4 t m
      fro h = elim (Has-append m steps (castles b col (castle_row col) 4 (some t)) h) [
        | inl n ↦ absurd (not_near n)
        | inr n ↦ (castles-Has b col (castle_row col) 4 t m).0 n
      ]

      back :
          Castles b col (castle_row col) 4 t m
          → Has m (steps ++ castles b col (castle_row col) 4 (some t))
      back k = Has-append_right m steps _ ((castles-Has b col (castle_row col) 4 t m).1 k)

  -- The two positions that `getLegal` looks at for a castling to column `tc`.
  abbrev pub Unattacked : ℕ → Type 0
  Unattacked tc =
      (in_chk (app_mv b (castle_row col) 4 (castle_row col) (if tc == 6 then 5 else 3)) col ≡ false)
      × (in_chk (move_rook (app_mv b (castle_row col) 4 (castle_row col) tc) (castle_row col) tc)
            col
          ≡ false)

  castle_safe :
      (tc : ℕ)
      → (tc ≡ 6) ⊎ (tc ≡ 2)
      → (is_safe b col king (castle_row col) 4 ep (castle_row col, tc) ≡ true) ↔ Unattacked tc
  unfolding is_safe take_ep
  castle_safe tc (inl e) = rw e (of_ep ep)
    where
      of_ep :
          (q : Option Square)
          → (is_safe b col king (castle_row col) 4 q (castle_row col, 6) ≡ true) ↔ Unattacked 6
      of_ep none = (λ h. ground arith, λ h. ground arith)
      of_ep (some x) = (λ h. ground arith, λ h. ground arith)
  castle_safe tc (inr e) = rw e (of_ep ep)
    where
      of_ep :
          (q : Option Square)
          → (is_safe b col king (castle_row col) 4 q (castle_row col, 2) ≡ true) ↔ Unattacked 2
      of_ep none = (λ h. ground arith, λ h. ground arith)
      of_ep (some x) = (λ h. ground arith, λ h. ground arith)

  king_part :
      Castles b col (castle_row col) 4 t (castle_row col, 6) → can_castle_king b col t ≡ true
  king_part (_, _, inl (e, k)) = k
  king_part (_, _, inr (e, k)) = absurd (omega (arith, ap (λ (s : Square). s.1) e))

  queen_part :
      Castles b col (castle_row col) 4 t (castle_row col, 2) → can_castle_queen b col t ≡ true
  queen_part (_, _, inl (e, k)) = absurd (omega (arith, ap (λ (s : Square). s.1) e))
  queen_part (_, _, inr (e, k)) = k

  -- The board with the king on another column of its home row.
  abbrev pub KingOn : ℕ → Board
  KingOn c = put (put b (castle_row col) c (some (piece col king))) (castle_row col) 4 none

  -- The board once both have moved: the king to column `c`, what stands on `corner` to `d`.
  abbrev pub Castled : ℕ → ℕ → ℕ → Board
  Castled c corner d =
      put (put (KingOn c) (castle_row col) d (cell (KingOn c) (castle_row col) corner))
        (castle_row col) corner none

  abbrev pub Vacant : ℕ → Type 0
  Vacant c = cell b (castle_row col) c ≡ none

  -- What castling to either side takes.
  abbrev pub ShortCastle : Type 0
  ShortCastle =
      (king_side t col ≡ true)
      × Vacant 5
      × Vacant 6
      × (in_chk (KingOn 5) col ≡ false)
      × (in_chk (Castled 6 7 5) col ≡ false)

  abbrev pub LongCastle : Type 0
  LongCastle =
      (queen_side t col ≡ true)
      × Vacant 3
      × Vacant 2
      × Vacant 1
      × (in_chk (KingOn 3) col ≡ false)
      × (in_chk (Castled 2 0 3) col ≡ false)

  king_on :
      (c : ℕ)
      → cell b (castle_row col) 4 ≡ some (piece col king)
      → app_mv b (castle_row col) 4 (castle_row col) c ≡ KingOn c
  unfolding app_mv
  king_on c e = ap (λ x. put (put b (castle_row col) c x) (castle_row col) 4 none) e

  short_free : (can_castle_king b col t ≡ true) ↔ ((king_side t col ≡ true) × Vacant 5 × Vacant 6)
  unfolding can_castle_king
  short_free = free2 (king_side t col) (cell b (castle_row col) 5) (cell b (castle_row col) 6)

  long_free :
      (can_castle_queen b col t ≡ true)
      ↔ ((queen_side t col ≡ true) × Vacant 3 × Vacant 2 × Vacant 1)
  unfolding can_castle_queen
  long_free =
      free3 (queen_side t col) (cell b (castle_row col) 3) (cell b (castle_row col) 2)
        (cell b (castle_row col) 1)

  short_safe :
      cell b (castle_row col) 4 ≡ some (piece col king)
      → Unattacked 6 ≡ ((in_chk (KingOn 5) col ≡ false) × (in_chk (Castled 6 7 5) col ≡ false))
  unfolding move_rook
  short_safe e =
      ap₂ (λ x y. (in_chk x col ≡ false) × (in_chk (move_rook y (castle_row col) 6) col ≡ false))
        (king_on 5 e) (king_on 6 e)

  long_safe :
      cell b (castle_row col) 4 ≡ some (piece col king)
      → Unattacked 2 ≡ ((in_chk (KingOn 3) col ≡ false) × (in_chk (Castled 2 0 3) col ≡ false))
  unfolding move_rook
  long_safe e =
      ap₂ (λ x y. (in_chk x col ≡ false) × (in_chk (move_rook y (castle_row col) 2) col ≡ false))
        (king_on 3 e) (king_on 2 e)

  -- `getLegal` offers the king on its home square to castle short exactly when the right is kept, the
  -- two squares beside the king are empty, and the king is attacked neither one square to the side nor
  -- on the board on which king and corner piece have moved; and to castle long likewise, with the three
  -- squares to the corner empty. Whether the king stands in check before the move is not asked.
  pub get_legal-castles :
      cell b (castle_row col) 4 ≡ some (piece col king)
      → (Has (castle_row col, 6) (get_legal b (castle_row col) 4 ep (some t)) ↔ ShortCastle)
        × (Has (castle_row col, 2) (get_legal b (castle_row col) 4 ep (some t)) ↔ LongCastle)
  get_legal-castles e = (
    (
      λ h.
          let (k, u) = fro_king h in
          let (r, x, y) = short_free.0 k in
          let (safe, after) = subst (λ X. X) (short_safe e) u in (r, x, y, safe, after),
      λ (r, x, y, u, v).
          back_king (short_free.1 (r, x, y), subst (λ X. X) (sym (short_safe e)) (u, v)),
    ),
    (
      λ h.
          let (k, u) = fro_queen h in
          let (r, x, y, z) = long_free.0 k in
          let (safe, after) = subst (λ X. X) (long_safe e) u in (r, x, y, z, safe, after),
      λ (r, x, y, z, u, v).
          back_queen (long_free.1 (r, x, y, z), subst (λ X. X) (sym (long_safe e)) (u, v)),
    ),
  )
    where
      row : ℕ
      row = castle_row col

      fro_king :
          Has (row, 6) (get_legal b row 4 ep (some t))
          → (can_castle_king b col t ≡ true) × Unattacked 6
      fro_king h =
          let (raw, safe) = (get_legal_iff b row 4 ep (some t) col king (row, 6) e).0 h in
          (king_part ((raw_castle (row, 6) e (inl refl)).0 raw), (castle_safe 6 (inl refl)).0 safe)

      back_king :
          (can_castle_king b col t ≡ true) × Unattacked 6
          → Has (row, 6) (get_legal b row 4 ep (some t))
      back_king (k, u) = (get_legal_iff b row 4 ep (some t) col king (row, 6) e).1 (
        (raw_castle (row, 6) e (inl refl)).1 (refl, refl, inl (refl, k)),
        (castle_safe 6 (inl refl)).1 u,
      )

      fro_queen :
          Has (row, 2) (get_legal b row 4 ep (some t))
          → (can_castle_queen b col t ≡ true) × Unattacked 2
      fro_queen h =
          let (raw, safe) = (get_legal_iff b row 4 ep (some t) col king (row, 2) e).0 h in
          (queen_part ((raw_castle (row, 2) e (inr refl)).0 raw), (castle_safe 2 (inr refl)).0 safe)

      back_queen :
          (can_castle_queen b col t ≡ true) × Unattacked 2
          → Has (row, 2) (get_legal b row 4 ep (some t))
      back_queen (k, u) = (get_legal_iff b row 4 ep (some t) col king (row, 2) e).1 (
        (raw_castle (row, 2) e (inr refl)).1 (refl, refl, inr (refl, k)),
        (castle_safe 2 (inr refl)).1 u,
      )
