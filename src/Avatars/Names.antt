-- ===== src/Avatars/Names.antt =====
-- The names of avatars: the name that an upload makes is a managed one, its URL is read back as it,
-- and no managed name leaves the directory or the prefix of the bucket.
use end_to_end_kubernetes_ch.Base.{
  decimal_from, ℕ, zero, suc, ◌+◌, ◌/◌, ◌%◌, ◌≡◌, refl, ap, inl, inr, Bool, true, false, Option,
  none, some, [], ◌∷◌, ◌++◌, ◌==◌, ltb, arith, all, >>=-eq-some, Bool-cases,
}
use end_to_end_kubernetes_ch.Avatars.{
  Text, same_text, strip, drop_run, strip_run, is_digit, is_uuid_char, user_prefix, webp_suffix,
  url_prefix, is_end, is_managed_file, managed_avatar_filename,
}
use end_to_end_kubernetes_ch.Avatars.Upload.{new_filename}

pub same_text_refl : (t : Text) → same_text t t ≡ true
same_text_refl [] = refl
same_text_refl (c ∷ cs) = ground (arith, same_text_refl cs)

pub same_text_eq : (s t : Text) → same_text s t ≡ true → s ≡ t
same_text_eq [] [] h = refl
same_text_eq (x ∷ xs) (y ∷ ys) h = ground (arith, same_text_eq xs ys (ground (arith, h)), h)
same_text_eq [] (y ∷ ys) h = cc
same_text_eq (x ∷ xs) [] h = cc

pub strip-append : (p t : Text) → strip p (p ++ t) ≡ some t
unfolding strip
strip-append [] t = refl
strip-append (c ∷ p) t = rw (strip-append p t) (ground arith)

drop_run-append :
    (is_in : ℕ → Bool) (xs : Text) (c : ℕ) (rest : Text)
    → all is_in xs ≡ true
    → is_in c ≡ false
    → drop_run is_in (xs ++ (c ∷ rest)) ≡ c ∷ rest
unfolding drop_run
drop_run-append is_in [] c rest h k = rw k refl
drop_run-append is_in (x ∷ xs) c rest h k = elim (Bool-cases (is_in x)) [
  | inl e ↦ rw e (drop_run-append is_in xs c rest (rw e at h) k)
  | inr e ↦ absurd (cc (rw e at h))
]

-- A nonempty run, up to a character that is not in the class.
strip_run-append :
    (is_in : ℕ → Bool) (x : ℕ) (xs : Text) (c : ℕ) (rest : Text)
    → all is_in (x ∷ xs) ≡ true
    → is_in c ≡ false
    → strip_run is_in ((x ∷ xs) ++ (c ∷ rest)) ≡ some (c ∷ rest)
unfolding strip_run
strip_run-append is_in x xs c rest h k = elim (Bool-cases (is_in x)) [
  | inl e ↦ rw e (ap some (drop_run-append is_in xs c rest (rw e at h) k))
  | inr e ↦ absurd (cc (rw e at h))
]

all-append :
    (p : ℕ → Bool) (xs ys : Text) → all p xs ≡ true → all p ys ≡ true → all p (xs ++ ys) ≡ true
all-append p [] ys h k = k
all-append p (x ∷ xs) ys h k = elim (Bool-cases (p x)) [
  | inl e ↦ rw e (all-append p xs ys (rw e at h) k)
  | inr e ↦ absurd (cc (rw e at h))
]

digit_of : (n : ℕ) → ltb n 10 ≡ true → is_digit (b'0' + n) ≡ true
digit_of n h = ground (arith, h)

last_digit : (n : ℕ) → is_digit (b'0' + n % 10) ≡ true
last_digit n = ground arith

decimal-digits : (fuel n : ℕ) → all is_digit (decimal_from fuel n) ≡ true
unfolding decimal_from
decimal-digits zero n = refl
decimal-digits (suc fuel) n = elim (Bool-cases (ltb n 10)) [
  | inl e ↦ rw (decimal_from, e, digit_of n e) refl
  | inr e ↦
      rw (decimal_from, e)
        (all-append is_digit (decimal_from fuel (n / 10)) _ (decimal-digits fuel (n / 10))
          (rw (last_digit n) refl))
]

append_nonempty : (xs : Text) (c : ℕ) → (x : ℕ) × (rest : Text) × (xs ++ c ∷ [] ≡ x ∷ rest)
append_nonempty [] c = (c, [], refl)
append_nonempty (x ∷ xs) c = (x, xs ++ c ∷ [], refl)

decimal_nonempty : (fuel n : ℕ) → (x : ℕ) × (xs : Text) × (decimal_from (suc fuel) n ≡ x ∷ xs)
unfolding decimal_from
decimal_nonempty fuel n = elim (Bool-cases (ltb n 10)) [
  | inl e ↦ (b'0' + n, [], rw (decimal_from, e) refl)
  | inr e ↦
      let (x, xs, q) = append_nonempty (decimal_from fuel (n / 10)) (b'0' + n % 10) in
      (x, xs, rw (decimal_from, e) q)
]

suffix_end : is_end (strip webp_suffix webp_suffix) ≡ true
unfolding strip
suffix_end = refl

-- The name that an upload makes has the managed form.
pub new_filename-is_managed_file :
    (user u : ℕ) (us : Text)
    → all is_uuid_char (u ∷ us) ≡ true
    → is_managed_file (new_filename user (u ∷ us)) ≡ true
unfolding is_managed_file
new_filename-is_managed_file user u us h =
    let (x, xs, q) = decimal_nonempty user user in
    let digits = rw q at (decimal-digits (suc user) user) in
    rw
      (
        is_managed_file,
        q,
        strip-append user_prefix ((x ∷ xs) ++ (b'-' ∷ ((u ∷ us) ++ webp_suffix))),
        strip_run-append is_digit x xs b'-' ((u ∷ us) ++ webp_suffix) digits refl,
        strip-append (b'-' ∷ []) ((u ∷ us) ++ webp_suffix),
        strip_run-append is_uuid_char u us b'.' (b'w' ∷ b'e' ∷ b'b' ∷ b'p' ∷ []) h refl,
      )
      suffix_end

-- The URL of a managed file is read back as its name.
pub managed_avatar_filename_url :
    (name : Text)
    → is_managed_file name ≡ true
    → managed_avatar_filename (some (url_prefix ++ name)) ≡ some name
unfolding managed_avatar_filename
managed_avatar_filename_url name h =
    rw (managed_avatar_filename, strip-append url_prefix name, h) refl

pub same_text_prefix : (p a b : Text) → same_text (p ++ a) (p ++ b) ≡ same_text a b
same_text_prefix [] a b = refl
same_text_prefix (c ∷ p) a b = ground (arith, same_text_prefix p a b)

strip-eq : (p t rest : Text) → strip p t ≡ some rest → t ≡ p ++ rest
unfolding strip
strip-eq [] t rest h = ground arith
strip-eq (c ∷ p) [] rest h = cc
strip-eq (c ∷ p) (d ∷ t) rest h = elim (Bool-cases (c == d)) [
  | inr e ↦ absurd (cc (rw (strip, e) at h))
  | inl e ↦
      let q = strip-eq p t rest (rw (strip, e) at h) in
      let r : c ≡ d = ground (arith, e) in rw (q, r) refl
]

-- A URL that is read as a name is the URL of that name.
pub managed_avatar_filename-url :
    (url : Option Text) (name : Text)
    → managed_avatar_filename url ≡ some name
    → (url ≡ some (url_prefix ++ name)) × (is_managed_file name ≡ true)
unfolding managed_avatar_filename
managed_avatar_filename-url none name h = absurd (cc h)
managed_avatar_filename-url (some path) name h =
    let (rest, e, k) = >>=-eq-some (strip url_prefix path) _ h in
    elim (Bool-cases (is_managed_file rest)) [
      | inr m ↦ absurd (cc (rw m at k))
      | inl m ↦
          let q : rest ≡ name = cc (rw m at k) in
          (ap some (rw (← q) (strip-eq url_prefix path rest e)), rw (← q) m)
    ]
