-- ===== src/Engine/InCheck.antt =====
-- `inChk` against the geometric description of attack.
use end_to_end_kubernetes_ch.Base.{
  ℕ, zero, suc, ◌<◌, ◌≡◌, refl, ap, inl, inr, ◌↔◌, true, false, Option, none, some, List, [], ◌∷◌,
  map, arith, if◌then◌else◌, any, Has, Has-append_left, Has-append_right, any-Has, any_of_Has,
  Bool-cases, All, All-append, All-Has,
}
use end_to_end_kubernetes_ch.Engine.{
  Color, white, black, Kind, piece, Cell, Board, Square, Castling, same_color, is_color, is_king,
  opponent, cell,
}
use end_to_end_kubernetes_ch.Engine.Moves.{raw_moves, piece_moves}
use end_to_end_kubernetes_ch.Engine.Check.{
  row_squares, squares_from, squares, last_king, same_square, hits, in_chk,
}
use end_to_end_kubernetes_ch.Engine.Attack.{Attacks, piece_moves-Attacks}

abbrev pub OnBoard : Square → Type 0
OnBoard s = (s.0 < 8) × (s.1 < 8)

abbrev eight : List ℕ
eight = 0 ∷ 1 ∷ 2 ∷ 3 ∷ 4 ∷ 5 ∷ 6 ∷ 7 ∷ []

eight-Has : (c : ℕ) → c < 8 → Has c eight
eight-Has zero h = inl refl
eight-Has (suc zero) h = inr (inl refl)
eight-Has (suc (suc zero)) h = inr (inr (inl refl))
eight-Has (suc (suc (suc zero))) h = inr (inr (inr (inl refl)))
eight-Has (suc (suc (suc (suc zero)))) h = inr (inr (inr (inr (inl refl))))
eight-Has (suc (suc (suc (suc (suc zero))))) h = inr (inr (inr (inr (inr (inl refl)))))
eight-Has (suc (suc (suc (suc (suc (suc zero)))))) h = inr (inr (inr (inr (inr (inr (inl refl))))))
eight-Has (suc (suc (suc (suc (suc (suc (suc zero))))))) h =
    inr (inr (inr (inr (inr (inr (inr (inl refl)))))))
eight-Has (suc (suc (suc (suc (suc (suc (suc (suc c)))))))) h = absurd (omega arith)

Has-map : {A B : Type 0} (f : A → B) (a : A) (xs : List A) → Has a xs → Has (f a) (map f xs)
Has-map f a [] h = elim h [ ]
Has-map f a (x ∷ xs) (inl e) = inl (ap f e)
Has-map f a (x ∷ xs) (inr h) = inr (Has-map f a xs h)

squares_from-Has : (r c : ℕ) (rs : List ℕ) → Has r rs → c < 8 → Has (r, c) (squares_from rs)
squares_from-Has r c [] h lt = elim h [ ]
squares_from-Has r c (q ∷ rs) (inl e) lt =
    Has-append_left (r, c) (row_squares q) _
      (rw (← e) (Has-map (λ x. (r, x)) c eight (eight-Has c lt)))
squares_from-Has r c (q ∷ rs) (inr h) lt =
    Has-append_right (r, c) (row_squares q) _ (squares_from-Has r c rs h lt)

-- The two nested loops visit every square of the board, and nothing else.
pub squares-Has : (s : Square) → OnBoard s → Has s squares
unfolding squares
squares-Has (r, c) (hr, hc) = squares_from-Has r c eight (eight-Has r hr) hc

row_squares-OnBoard : (r : ℕ) → r < 8 → All OnBoard (row_squares r)
row_squares-OnBoard r h = omega arith

squares_from-OnBoard : (rs : List ℕ) → All (λ r. r < 8) rs → All OnBoard (squares_from rs)
squares_from-OnBoard [] h = tt
squares_from-OnBoard (r ∷ rs) h =
    All-append OnBoard (row_squares r) _ (row_squares-OnBoard r h.0) (squares_from-OnBoard rs h.1)

pub squares-OnBoard : (s : Square) → Has s squares → OnBoard s
unfolding squares
squares-OnBoard s h =
    All-Has OnBoard s (squares_from eight) (squares_from-OnBoard eight (omega arith)) h

-- The only king of colour `col` stands on `k`.
pub record LoneKing (b : Board) (col : Color) (k : Square) : Type 0 where
  pub on_board : OnBoard k
  pub is_there : is_king col (cell b k.0 k.1) ≡ true
  pub lone : (s : Square) → is_king col (cell b s.0 s.1) ≡ true → s ≡ k

-- A piece of colour `opp` attacks `k`.
abbrev pub Attacked : Board → Color → Square → Type 0
Attacked b opp k =
    (s : Square) × OnBoard s
    × ((t : Kind) × (cell b s.0 s.1 ≡ some (piece opp t)) × Attacks b opp t s.0 s.1 k)

module _ (b : Board) (col : Color) (k : Square) (h : LoneKing b col k) where
  last_king-keep : (xs : List Square) → last_king b col (some k) xs ≡ some k
  unfolding last_king
  last_king-keep [] = refl
  last_king-keep (s ∷ xs) = elim (Bool-cases (is_king col (cell b s.0 s.1))) [
    | inl e ↦ rw (e, h.lone s e) (last_king-keep xs)
    | inr e ↦ rw e (last_king-keep xs)
  ]

  last_king-Has :
      (found : Option Square) (xs : List Square) → Has k xs → last_king b col found xs ≡ some k
  unfolding last_king
  last_king-Has found [] m = elim m [ ]
  last_king-Has found (s ∷ xs) (inl e) = rw (← e, h.is_there) (last_king-keep xs)
  last_king-Has found (s ∷ xs) (inr m) =
      last_king-Has (if is_king col (cell b s.0 s.1) then some s else found) xs m

pub same_square_iff : (s t : Square) → (same_square s t ≡ true) ↔ (s ≡ t)
same_square_iff s t = ground arith

pub is_color_piece :
    (opp : Color) (x : Cell) → is_color opp x ≡ true → (t : Kind) × (x ≡ some (piece opp t))
is_color_piece white (some (piece white t)) h = (t, refl)
is_color_piece black (some (piece black t)) h = (t, refl)
is_color_piece white (some (piece black t)) h = cc
is_color_piece black (some (piece white t)) h = cc
is_color_piece white none h = cc
is_color_piece black none h = cc

pub same_color_refl : (c : Color) → same_color c c ≡ true
same_color_refl white = refl
same_color_refl black = refl

pub opponent-opponent : (c : Color) → opponent (opponent c) ≡ c
opponent-opponent white = refl
opponent-opponent black = refl

pub is_king-is_color : (col : Color) (x : Cell) → is_king col x ≡ true → is_color col x ≡ true
is_king-is_color col none h = h
is_king-is_color col (some (piece c t)) h = ground arith

pub raw_moves_at :
    (b : Board) (r c : ℕ) (ep : Option Square) (cast : Option Castling) (col : Color) (t : Kind)
    → cell b r c ≡ some (piece col t)
    → raw_moves b r c ep cast ≡ piece_moves b col t r c ep cast
unfolding raw_moves
raw_moves_at b r c ep cast col t e = rw (e, raw_moves)

module _ (b : Board) (col : Color) (k s : Square) (own : is_color col (cell b k.0 k.1) ≡ true)
    (on : OnBoard s) where
  abbrev AttackedFrom : Type 0
  AttackedFrom =
      (t : Kind) × (cell b s.0 s.1 ≡ some (piece (opponent col) t))
      × Attacks b (opponent col) t s.0 s.1 k

  -- From a square with a piece of the other colour, the raw moves onto the king are the attacks.
  raw_moves-Attacks :
      (t : Kind)
      → cell b s.0 s.1 ≡ some (piece (opponent col) t)
      → Has k (raw_moves b s.0 s.1 none none) ↔ Attacks b (opponent col) t s.0 s.1 k
  raw_moves-Attacks t e =
      rw (raw_moves_at b s.0 s.1 none none (opponent col) t e)
        (piece_moves-Attacks b (opponent col) s.0 s.1 on.0 on.1 k t (rw opponent-opponent own))

  hits-AttackedFrom : hits b (opponent col) k s ≡ true → AttackedFrom
  unfolding hits
  hits-AttackedFrom h =
      let (t, e) = is_color_piece (opponent col) (cell b s.0 s.1) (ground arith) in
      let (m, hm, q) = any-Has (same_square k) (raw_moves b s.0 s.1 none none) (ground arith) in
      (t, e, (raw_moves-Attacks t e).0 (rw ((same_square_iff k m).0 q) hm))

  AttackedFrom-hits : AttackedFrom → hits b (opponent col) k s ≡ true
  unfolding hits
  AttackedFrom-hits (t, e, a) =
      let found =
        any_of_Has (same_square k) k (raw_moves b s.0 s.1 none none) ((raw_moves-Attacks t e).1 a)
          ((same_square_iff k k).1 refl) in
      rw (found, e, same_color_refl (opponent col))

-- With one king of colour `col`, `inChk` says exactly whether a piece of the other colour attacks
-- the king's square.
pub in_chk-Attacked :
    (b : Board) (col : Color) (k : Square)
    → LoneKing b col k
    → (in_chk b col ≡ true) ↔ Attacked b (opponent col) k
unfolding in_chk
in_chk-Attacked b col k h =
    rw (last_king-Has b col k h none squares (squares-Has k h.on_board), in_chk) (fro, back)
  where
    own : is_color col (cell b k.0 k.1) ≡ true
    own = is_king-is_color col (cell b k.0 k.1) h.is_there

    fro : any (hits b (opponent col) k) squares ≡ true → Attacked b (opponent col) k
    fro e =
        let (s, m, q) = any-Has (hits b (opponent col) k) squares e in
        let on = squares-OnBoard s m in (s, on, hits-AttackedFrom b col k s own on q)

    back : Attacked b (opponent col) k → any (hits b (opponent col) k) squares ≡ true
    back (s, on, a) =
        any_of_Has (hits b (opponent col) k) s squares (squares-Has s on)
          (AttackedFrom-hits b col k s own on a)

last_king-none :
    (b : Board) (col : Color)
    → ((s : Square) → is_king col (cell b s.0 s.1) ≡ false)
    → (xs : List Square) → last_king b col none xs ≡ none
unfolding last_king
last_king-none b col h [] = refl
last_king-none b col h (s ∷ xs) = rw (h s) (last_king-none b col h xs)

-- Without a king of that colour nobody is in check.
pub in_chk-no_king :
    (b : Board) (col : Color)
    → ((s : Square) → is_king col (cell b s.0 s.1) ≡ false)
    → in_chk b col ≡ false
unfolding in_chk
in_chk-no_king b col h = rw (last_king-none b col h squares, in_chk)
