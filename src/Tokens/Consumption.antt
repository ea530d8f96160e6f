-- ===== src/Tokens/Consumption.antt =====
-- The use of account tokens, for e-mail verification and password reset (`consumeAccountToken` of
-- Chess-Backend/src/models/AuthToken.js).
use end_to_end_kubernetes_ch.Base.{
  ℕ, ◌≤◌, ◌≡◌, ◌∙◌, refl, sym, ap, inl, inr, Bool, true, false, Option, none, some, List, [], ◌∷◌,
  map, if◌then◌else◌, arith, ◌==◌, filter, Bool-cases, Option-cases,
}
use end_to_end_kubernetes_ch.Store.{update_where, count_where}
use end_to_end_kubernetes_ch.Store.Rows.{filter-narrow_none}
use end_to_end_kubernetes_ch.Store.Settled.{some_pair-inj}
use end_to_end_kubernetes_ch.Tokens.{
  AccountRow, Vault, is_usable, is_unspent, spend, only_row, consume_account_token,
}

only_row-cons :
    (x : AccountRow) (xs : List AccountRow) {a : AccountRow}
    → only_row (x ∷ xs) ≡ some a
    → (x ≡ a) × (xs ≡ [])
only_row-cons x [] h = (ap (λ o. elim o [ none ↦ x | some b ↦ b ]) h, refl)
only_row-cons x (y ∷ xs) h = cc

-- A change of all rows, by which no row begins to pass a test and the only one that passes it fails.
filter-map_none :
    (q : AccountRow → Bool) (g : AccountRow → AccountRow) (xs : List AccountRow)
    → ((b : AccountRow) → q b ≡ false → q (g b) ≡ false)
    → filter q xs ≡ []
    → filter q (map g xs) ≡ []
filter-map_none q g [] keep h = refl
filter-map_none q g (x ∷ xs) keep h = elim (Bool-cases (q x)) [
  | inl e ↦ absurd (cc (rw e at h))
  | inr e ↦ rw (keep x e) (filter-map_none q g xs keep (rw e at h))
]

filter-map_spent :
    (q : AccountRow → Bool) (g : AccountRow → AccountRow) (xs : List AccountRow) {a : AccountRow}
    → ((b : AccountRow) → q b ≡ false → q (g b) ≡ false)
    → only_row (filter q xs) ≡ some a
    → q (g a) ≡ false
    → filter q (map g xs) ≡ []
filter-map_spent q g [] keep h k = cc
filter-map_spent q g (x ∷ xs) {a} keep h k = elim (Bool-cases (q x)) [
  | inl e ↦
      let (xa, rest) = only_row-cons x (filter q xs) (rw e at h) in
      let off : q (g x) ≡ false = ap (λ y. q (g y)) xa ∙ k in
      rw off (filter-map_none q g xs keep rest)
  | inr e ↦ rw (keep x e) (filter-map_spent q g xs keep (rw e at h) k)
]

update_where-twice :
    (p p' : AccountRow → Bool) (f f' : AccountRow → AccountRow) (xs : List AccountRow)
    → update_where p' f' (update_where p f xs)
      ≡ map (λ x. let y = if p x then f x else x in if p' y then f' y else y) xs
update_where-twice p p' f f' [] = refl
update_where-twice p p' f f' (x ∷ xs) =
    ap (λ ys. (let y = if p x then f x else x in if p' y then f' y else y) ∷ ys)
      (update_where-twice p p' f f' xs)

only_row-filter :
    (q : AccountRow → Bool) (xs : List AccountRow) {a : AccountRow}
    → only_row (filter q xs) ≡ some a
    → q a ≡ true
only_row-filter q [] h = cc
only_row-filter q (x ∷ xs) h = elim (Bool-cases (q x)) [
  | inl e ↦ ap q (sym (only_row-cons x (filter q xs) (rw e at h)).0) ∙ e
  | inr e ↦ only_row-filter q xs (rw e at h)
]

usable_unspent :
    (hash purpose now : ℕ) (a : AccountRow)
    → is_usable hash purpose now a ≡ true
    → is_unspent a.id a ≡ true
usable_unspent hash purpose now a e = ground arith

spent_unusable :
    (hash purpose now : ℕ) (a : AccountRow) → is_usable hash purpose now (spend now a) ≡ false
spent_unusable hash purpose now a = ground arith

usable_before :
    (hash purpose now now' : ℕ) (a : AccountRow)
    → now ≤ now'
    → is_usable hash purpose now a ≡ false
    → is_usable hash purpose now' a ≡ false
usable_before hash purpose now now' a le e = ground arith

-- What a callback may do to the table of account tokens: mark rows as consumed.
abbrev pub OnlySpends : {S : Type 0} → (ℕ → ℕ → Vault × S → Option (Vault × S)) → Type 0
OnlySpends {S} callback =
    (user id : ℕ) (x y : Vault × S)
    → callback user id x ≡ some y
    → (p : AccountRow → Bool) × (t : ℕ) × ((y.0).account ≡ update_where p (spend t) (x.0).account)

unusable_after :
    (hash purpose now t id : ℕ) (p : Bool) (b : AccountRow)
    → is_usable hash purpose now b ≡ false
    → let c = if p then spend t b else b in
      is_usable hash purpose now (if is_unspent id c then spend now c else c) ≡ false
unusable_after hash purpose now t id true b e = ground arith
unusable_after hash purpose now t id false b e = elim (Bool-cases (is_unspent id b)) [
  | inl k ↦ rw k (spent_unusable hash purpose now b)
  | inr k ↦ rw k e
]

spent_after :
    (hash purpose now t : ℕ) (p : Bool) (a : AccountRow)
    → is_unspent a.id a ≡ true
    → let c = if p then spend t a else a in
      is_usable hash purpose now (if is_unspent a.id c then spend now c else c) ≡ false
spent_after hash purpose now t true a e = ground arith
spent_after hash purpose now t false a e = rw e (spent_unusable hash purpose now a)

module _ {S : Type 0} (callback : ℕ → ℕ → Vault × S → Option (Vault × S)) (hash purpose now : ℕ)
    (db : Vault × S) where
  -- The table of account tokens after a use.
  consumed_rows :
      {db' : Vault × S}
      → OnlySpends callback
      → consume_account_token callback hash purpose now db ≡ some (db', true)
      → (a : AccountRow) × (only_row (filter (is_usable hash purpose now) (db.0).account) ≡ some a)
        × (p : AccountRow → Bool) × (t : ℕ) × ((db'.0).account
            ≡ update_where (is_unspent a.id) (spend now) (update_where p (spend t) (db.0).account))
  unfolding consume_account_token
  consumed_rows {db'} keeps h =
      elim (Option-cases (only_row (filter (is_usable hash purpose now) (db.0).account))) [
        | inl e ↦ absurd (cc ((some_pair-inj (rw (consume_account_token, e) at h)).1))
        | inr (a, e) ↦ elim (Option-cases (callback a.user_id a.id db)) [
          | inl f ↦ absurd (cc (rw (consume_account_token, e, f) at h))
          | inr (done, f) ↦
              elim (Bool-cases (count_where (is_unspent a.id) (done.0).account == 1)) [
                | inr k ↦ absurd (cc (rw (consume_account_token, e, f, k) at h))
                | inl k ↦
                    let (q, t, spent) = keeps a.user_id a.id db done f in
                    let (p, r) = some_pair-inj (rw (consume_account_token, e, f, k) at h) in
                    (
                      a,
                      e,
                      q,
                      t,
                      ap (λ (x : Vault × S). (x.0).account) p
                          ∙ ap (update_where (is_unspent a.id) (spend now)) spent,
                    )
              ]
        ]
      ]

consume_account_token-empty :
    {S : Type 0} (callback : ℕ → ℕ → Vault × S → Option (Vault × S)) (hash purpose now : ℕ)
    (db : Vault × S)
    → filter (is_usable hash purpose now) (db.0).account ≡ []
    → consume_account_token callback hash purpose now db ≡ some (db, false)
unfolding consume_account_token
consume_account_token-empty callback hash purpose now db e = simp (consume_account_token, e)

-- A token that was accepted, by a call whose work only spends account tokens, is refused at every later
-- time, whatever is then to be done: the second call for the same token and purpose answers `false` and
-- changes nothing.
pub consume_account_token-once :
    {S : Type 0} (callback later : ℕ → ℕ → Vault × S → Option (Vault × S))
    (hash purpose now now' : ℕ) (db db' : Vault × S)
    → now ≤ now'
    → OnlySpends callback
    → consume_account_token callback hash purpose now db ≡ some (db', true)
    → consume_account_token later hash purpose now' db' ≡ some (db', false)
consume_account_token-once callback later hash purpose now now' db db' le keeps h =
    let (a, e, p, t, rows) = consumed_rows callback hash purpose now db keeps h in
    let before = (db.0).account in
    let unspent =
      usable_unspent hash purpose now a (only_row-filter (is_usable hash purpose now) before e) in
    consume_account_token-empty later hash purpose now' db' (
      filter-narrow_none (is_usable hash purpose now) (is_usable hash purpose now')
        (λ x. usable_before hash purpose now now' x le) (db'.0).account
        (ap (filter (is_usable hash purpose now))
            (rows ∙ update_where-twice p (is_unspent a.id) (spend t) (spend now) before)
          ∙ filter-map_spent (is_usable hash purpose now) _ before
              (λ b. unusable_after hash purpose now t a.id (p b) b) e
              (spent_after hash purpose now t (p a) a unspent)))
