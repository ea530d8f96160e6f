-- ===== src/Store/Grants.antt =====
-- The achievements that a settlement grants (`finalizeGameAtomic` of
-- Chess-Backend/src/socket/gameSocket.js).
use end_to_end_kubernetes_ch.Base.{
  ℕ, ◌+◌, ◌≡◌, refl, inl, inr, Bool, true, false, List, [], ◌∷◌, ◌++◌, arith, leb, ◌==◌, ◌&&◌, any,
  if◌then◌else◌, Bool-cases,
}
use end_to_end_kubernetes_ch.Store.{ScoreRow, Achievement, first_game, first_win}
use end_to_end_kubernetes_ch.Store.Finalize.{
  has_achievement, achievement_code, achievement_keys, grant, wins_of,
}

any-append :
    {A : Type 0} (p : A → Bool) (xs ys : List A) → any p xs ≡ true → any p (xs ++ ys) ≡ true
any-append p [] ys h = cc
any-append p (x ∷ xs) ys h = elim (Bool-cases (p x)) [
  | inl e ↦ rw e refl
  | inr e ↦ rw e (any-append p xs ys (rw e at h))
]

any-last :
    {A : Type 0} (p : A → Bool) (xs : List A) (x : A) → p x ≡ true → any p (xs ++ x ∷ []) ≡ true
any-last p [] x h = rw h refl
any-last p (y ∷ xs) x h = elim (Bool-cases (p y)) [
  | inl e ↦ rw e refl
  | inr e ↦ rw e (any-last p xs x h)
]

-- What is granted stays.
pub grant-keeps :
    (u user : ℕ) (k : Achievement) (ks : List Achievement) (rows : List (ℕ × Achievement))
    → has_achievement u k rows ≡ true
    → has_achievement u k (grant user ks rows) ≡ true
unfolding grant
grant-keeps u user k [] rows h = h
grant-keeps u user k (j ∷ ks) rows h = elim (Bool-cases (has_achievement user j rows)) [
  | inl e ↦ rw (grant, e) (grant-keeps u user k ks rows h)
  | inr e ↦ rw (grant, e) (grant-keeps u user k ks _ (any-append _ rows _ h))
]

has_own :
    (user : ℕ) (k : Achievement) → (user == user && achievement_code k == achievement_code k) ≡ true
has_own user k = ground arith

pub grant-first :
    (user : ℕ) (k : Achievement) (ks : List Achievement) (rows : List (ℕ × Achievement))
    → has_achievement user k (grant user (k ∷ ks) rows) ≡ true
unfolding grant
grant-first user k ks rows = elim (Bool-cases (has_achievement user k rows)) [
  | inl e ↦ rw (grant, e) (grant-keeps user user k ks rows e)
  | inr e ↦ rw (grant, e) (grant-keeps user user k ks _ (any-last _ rows _ (has_own user k)))
]

pub grant-second :
    (user : ℕ) (j k : Achievement) (ks : List Achievement) (rows : List (ℕ × Achievement))
    → has_achievement user k (grant user (j ∷ k ∷ ks) rows) ≡ true
unfolding grant
grant-second user j k ks rows = grant-first user k ks _

pub grant-first_game :
    (user : ℕ) (won : Bool) (wins moves : ℕ) (rows : List (ℕ × Achievement))
    → has_achievement user first_game (grant user (achievement_keys won wins moves) rows) ≡ true
unfolding achievement_keys
grant-first_game user won wins moves rows = grant-first user first_game _ rows

pub grant-first_win :
    (user wins moves : ℕ) (rows : List (ℕ × Achievement))
    → leb 1 wins ≡ true
    → has_achievement user first_win (grant user (achievement_keys true wins moves) rows) ≡ true
unfolding achievement_keys
grant-first_win user wins moves rows e =
    rw (achievement_keys, e) (grant-second user first_game first_win _ rows)

-- A win is counted.
pub wins_of-last :
    (user : ℕ) (scores : List ScoreRow) (r : ScoreRow)
    → r.user_id ≡ user
    → wins_of user (scores ++ r ∷ []) ≡ wins_of user scores + (if r.winner then 1 else 0)
wins_of-last user [] r e =
    rw e (elim (Bool-cases r.winner) [ inl h ↦ ground arith | inr h ↦ ground arith ])
wins_of-last user (x ∷ xs) r e = omega (arith, wins_of-last user xs r e)

pub wins_of-other :
    (user : ℕ) (scores : List ScoreRow) (r : ScoreRow)
    → (r.user_id == user) ≡ false
    → wins_of user (scores ++ r ∷ []) ≡ wins_of user scores
wins_of-other user [] r e = rw e refl
wins_of-other user (x ∷ xs) r e = omega (arith, wins_of-other user xs r e)
