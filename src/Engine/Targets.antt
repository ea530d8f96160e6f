-- ===== src/Engine/Targets.antt =====
-- What each part of `rawMoves` pushes: steps, pawn moves and captures, as conditions on a square.
use end_to_end_kubernetes_ch.Base.{
  if◌then◌else◌, ℕ, ◌≡◌, refl, ◌⊎◌, inl, inr, ◌↔◌, Bool, true, false, not, ◌&&◌, ◌==◌, Option, none,
  some, List, [], ◌∷◌, ◌++◌, arith, ℤ, pos, ◌+ℤ◌, Has, Has-append, Has-append_left,
  Has-append_right, Bool-cases,
}
use end_to_end_kubernetes_ch.Engine.{
  Castling, Color, Board, Square, square?, is_color, opponent, cell,
}
use end_to_end_kubernetes_ch.Engine.Moves.{
  push_when, can_castle_king, can_castle_queen, castles, castle_row, hop, collect, forward,
  pawn_double, pawn_pushes, pawn_capture, is_empty, is_ep, push_if, pushes_from, forward_twice,
  start_row,
}

module _ (f : ℤ × ℤ → List Square) (s : Square) where
  pub collect-Has :
      (ds : List (ℤ × ℤ)) → Has s (collect f ds) → (d : ℤ × ℤ) × Has d ds × Has s (f d)
  collect-Has [] h = elim h [ ]
  collect-Has (d ∷ ds) h = elim (Has-append s (f d) (collect f ds) h) [
    | inl m ↦ (d, inl refl, m)
    | inr m ↦ let (e, me, he) = collect-Has ds m in (e, inr me, he)
  ]

  pub Has-collect : (ds : List (ℤ × ℤ)) (d : ℤ × ℤ) → Has d ds → Has s (f d) → Has s (collect f ds)
  Has-collect [] d m h = elim m [ ]
  Has-collect (e ∷ ds) d (inl q) h = Has-append_left s (f e) (collect f ds) (rw (← q) h)
  Has-collect (e ∷ ds) d (inr m) h = Has-append_right s (f e) (collect f ds) (Has-collect ds d m h)

-- The square at an offset from `r`, `c` is `s`.
abbrev pub Offset : ℕ → ℕ → ℤ × ℤ → Square → Type 0
Offset r c d s = square? (pos r +ℤ d.0) (pos c +ℤ d.1) ≡ some s

pub push_if-Has :
    (p : Square → Bool) (o : Option Square) (s : Square)
    → Has s (push_if p o) ↔ ((o ≡ some s) × (p s ≡ true))
push_if-Has p none s = (λ h. elim h [ ], λ h. cc)
push_if-Has p (some t) s = (fro, back)
  where
    back : (some t ≡ some s) × (p s ≡ true) → Has s (push_if p (some t))
    back (e, q) = let u : t ≡ s = cc in rw (u, q) (inl refl)

    fro : Has s (push_if p (some t)) → (some t ≡ some s) × (p s ≡ true)
    fro h = elim (Bool-cases (p t)) [ inl e ↦ ground arith | inr e ↦ absurd (rw e at h) ]

pub hop-Has :
    (b : Board) (col : Color) (r c : ℕ) (d : ℤ × ℤ) (s : Square)
    → Has s (hop b col r c d) ↔ (Offset r c d s × (is_color col (cell b s.0 s.1) ≡ false))
unfolding hop
hop-Has b col r c (dr, dc) s =
    (λ h. let (o, p) = q.0 h in (o, ground arith), λ h. q.1 (h.0, ground arith))
  where
    q :
        Has s (hop b col r c (dr, dc))
        ↔ (Offset r c (dr, dc) s × (not (is_color col (cell b s.0 s.1)) ≡ true))
    q = push_if-Has (λ t. not (is_color col (cell b t.0 t.1))) _ s

pub pawn_capture-Has :
    (b : Board) (col : Color) (r c : ℕ) (ep : Option Square) (dc : ℤ) (s : Square)
    → Has s (pawn_capture b col r c ep dc) ↔ (
        Offset r c (forward col, dc) s
        × ((is_color (opponent col) (cell b s.0 s.1) ≡ true) ⊎ (is_ep ep s ≡ true)))
unfolding pawn_capture
pawn_capture-Has b col r c ep dc s = (fro, back)
  where
    o : Option Square
    o = square? (pos r +ℤ forward col) (pos c +ℤ dc)

    takes : Square → Bool
    takes t = is_color (opponent col) (cell b t.0 t.1)

    fro :
        Has s (push_if takes o ++ push_if (is_ep ep) o)
        → Offset r c (forward col, dc) s × ((takes s ≡ true) ⊎ (is_ep ep s ≡ true))
    fro h = elim (Has-append s (push_if takes o) (push_if (is_ep ep) o) h) [
      | inl m ↦ let (e, t) = (push_if-Has takes o s).0 m in (e, inl t)
      | inr m ↦ let (e, t) = (push_if-Has (is_ep ep) o s).0 m in (e, inr t)
    ]

    back :
        Offset r c (forward col, dc) s × ((takes s ≡ true) ⊎ (is_ep ep s ≡ true))
        → Has s (push_if takes o ++ push_if (is_ep ep) o)
    back (e, inl t) = Has-append_left s _ _ ((push_if-Has takes o s).1 (e, t))
    back (e, inr t) = Has-append_right s (push_if takes o) _ ((push_if-Has (is_ep ep) o s).1 (e, t))

pub pawn_pushes-Has :
    (b : Board) (col : Color) (r c : ℕ) (s : Square)
    → Has s (pawn_pushes b col r c)
    → (is_empty (cell b s.0 s.1) ≡ true)
      × ((square? (pos r +ℤ forward col) (pos c) ≡ some s)
          ⊎ (square? (pos r +ℤ forward_twice col) (pos c) ≡ some s))
unfolding pawn_pushes pawn_double
pawn_pushes-Has b col r c s h = from (square? (pos r +ℤ forward col) (pos c)) h
  where
    twice : Option Square
    twice = square? (pos r +ℤ forward_twice col) (pos c)

    free : Square → Bool
    free t = r == start_row col && is_empty (cell b t.0 t.1)

    second : Has s (push_if free twice) → (is_empty (cell b s.0 s.1) ≡ true) × (twice ≡ some s)
    second m = let (e, q) = (push_if-Has free twice s).0 m in (ground arith, e)

    from :
        (o : Option Square)
        → Has s (pushes_from b o (push_if free twice))
        → (is_empty (cell b s.0 s.1) ≡ true) × ((o ≡ some s) ⊎ (twice ≡ some s))
    from none m = elim m [ ]
    from (some t) m = elim (Bool-cases (is_empty (cell b t.0 t.1))) [
      | inl e ↦ elim (rw (e, pushes_from) at m) [
        | inl q ↦ (rw q e, inl (rw q))
        | inr m' ↦ ((second m').0, inr (second m').1)
      ]
      | inr e ↦ absurd (rw (e, pushes_from) at m)
    ]

push_when-Has : (p : Bool) (t s : Square) → Has s (push_when p t) ↔ ((s ≡ t) × (p ≡ true))
push_when-Has true t s = (λ h. elim h [ inl e ↦ (e, refl) | inr m ↦ absurd m ], λ h. inl h.0)
push_when-Has false t s = (λ h. elim h [ ], λ h. cc)

-- A castling move: the king stands at home, the right is kept, the squares between are empty.
abbrev pub Castles : Board → Color → ℕ → ℕ → Castling → Square → Type 0
Castles b col r c t s =
    (r ≡ castle_row col)
    × (c ≡ 4)
    × (((s ≡ (castle_row col, 6)) × (can_castle_king b col t ≡ true))
        ⊎ ((s ≡ (castle_row col, 2)) × (can_castle_queen b col t ≡ true)))

pub castles-Has :
    (b : Board) (col : Color) (r c : ℕ) (t : Castling) (s : Square)
    → Has s (castles b col r c (some t)) ↔ Castles b col r c t s
unfolding castles
castles-Has b col r c t s = (λ h. at_home h (Bool-cases home), back)
  where
    home : Bool
    home = r == castle_row col && c == 4

    king_move : List Square
    king_move = push_when (can_castle_king b col t) (castle_row col, 6)

    queen_move : List Square
    queen_move = push_when (can_castle_queen b col t) (castle_row col, 2)

    at_home :
        Has s (if home then king_move ++ queen_move else [])
        → (home ≡ true) ⊎ (home ≡ false)
        → Castles b col r c t s
    at_home h (inr e) = absurd (rw e at h)
    at_home h (inl e) = (
      ground arith,
      ground arith,
      elim (Has-append s king_move queen_move (rw e at h)) [
        | inl m ↦ inl ((push_when-Has (can_castle_king b col t) _ s).0 m)
        | inr m ↦ inr ((push_when-Has (can_castle_queen b col t) _ s).0 m)
      ],
    )

    back : Castles b col r c t s → Has s (if home then king_move ++ queen_move else [])
    back (er, ec, m) =
        let e : home ≡ true = ground arith in
        rw e (elim m [
          | inl k ↦
              Has-append_left s king_move queen_move
                ((push_when-Has (can_castle_king b col t) _ s).1 k)
          | inr k ↦
              Has-append_right s king_move queen_move
                ((push_when-Has (can_castle_queen b col t) _ s).1 k)
        ])
