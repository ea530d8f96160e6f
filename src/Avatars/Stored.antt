-- ===== src/Avatars/Stored.antt =====
-- What is stored under a name, in the store that the environment chooses (avatarStore.js): a write
-- stores it, the deletion of another name keeps it, and a read serves it.
use end_to_end_kubernetes_ch.Base.{
  ◌≡◌, ◌∙◌, refl, inl, inr, Bool, true, false, not, Option, none, some, List, [], ◌∷◌, ◌++◌, ◌&&◌,
  filter, Bool-cases, Option-cases,
}
use end_to_end_kubernetes_ch.Avatars.{
  Text, same_text, key_prefix, is_managed_file, key_for_filename,
}
use end_to_end_kubernetes_ch.Avatars.Stores.{
  Buffer, Mode, local, s3, Environment, Got, found, missing, failed, S3, Stores, find_file, stored,
  Read, body, unreadable, request_key, is_gone, write_local, read_local, put_in_bucket,
  write_avatar, serve_got, get_from_bucket, read_avatar, delete_local, delete_in_bucket,
  delete_avatar,
}
use end_to_end_kubernetes_ch.Avatars.Names.{same_text_refl, same_text_eq, same_text_prefix}

-- The documented behaviour of S3: an object that was put is read back from then on, until it is put
-- again or deleted.
pub record IsBucket {B : Type 0} (c : S3 B) (holds : B → Text → Option Buffer) : Type 0 where
  pub put_ok :
      (k : Text) (x : Buffer) (b : B)
      → (c.put_object k x b).1 ≡ true
      → holds (c.put_object k x b).0 k ≡ some x
  pub put_other :
      (k j : Text) (x : Buffer) (b : B)
      → same_text k j ≡ false
      → holds (c.put_object k x b).0 j ≡ holds b j
  pub get_found :
      (k : Text) (b : B) (x : Buffer) (etag : Option Text)
      → (c.get_object k b).1 ≡ found x etag
      → holds b k ≡ some x
  pub get_missing : (k : Text) (b : B) → (c.get_object k b).1 ≡ missing → holds b k ≡ none
  pub delete_ok :
      (k : Text) (b : B)
      → is_gone (c.delete_object k b).1 ≡ true
      → holds (c.delete_object k b).0 k ≡ none
  pub delete_other :
      (k j : Text) (b : B) → same_text k j ≡ false → holds (c.delete_object k b).0 j ≡ holds b j

-- The answer to a read of a file with the content `x`: the content, or a failure of the store.
pub data Serves (x : Buffer) : Read → Type 0 where
  served : (etag : Option Text) (legacy : Bool) → Serves x (body x etag legacy)
  store_fails : Serves x unreadable

pub other_file :
    (name old : Text) (dir : List (Text × Buffer))
    → same_text old name ≡ false
    → find_file name (filter (λ (file : Text × Buffer). not (same_text file.0 old)) dir)
      ≡ find_file name dir
other_file name old [] h = refl
other_file name old ((n, x) ∷ dir) h = elim (Bool-cases (same_text n old)) [
  | inr e ↦ rw (e, other_file name old dir h) refl
  | inl e ↦
      let p : n ≡ old = same_text_eq n old e in
      let q : same_text n name ≡ false = rw p h in rw (e, q) (other_file name old dir h)
]

request_key-key :
    (env : Environment) (name key : Text)
    → request_key env name ≡ some key
    → key ≡ key_prefix ++ name
unfolding key_for_filename
request_key-key env name key h = elim (Bool-cases (env.has_region && env.has_bucket)) [
  | inr e ↦ absurd (cc (rw (request_key, e) at h))
  | inl e ↦ elim (Bool-cases (is_managed_file name)) [
    | inr k ↦ absurd (cc (rw (request_key, e, key_for_filename, k) at h))
    | inl k ↦ cc (rw (request_key, e, key_for_filename, k) at h)
  ]
]

module _ {B : Type 0} (c : S3 B) (holds : B → Text → Option Buffer) (law : IsBucket c holds)
    (env : Environment) (name : Text) (x : Buffer) (managed : is_managed_file name ≡ true) where
  -- The file is in the store of the mode.
  abbrev pub IsIn : Option Mode → Stores B → Type 0
  IsIn none s = ⊥
  IsIn (some local) s = find_file name s.dir ≡ some x
  IsIn (some s3) s = holds s.bucket (key_prefix ++ name) ≡ some x

  write_local-IsIn :
      (m : Mode) (s : Stores B)
      → (write_local name x s).1 ≡ stored m
      → find_file name (write_local name x s).0.dir ≡ some x
  unfolding write_local
  write_local-IsIn m s h = elim (Option-cases (find_file name s.dir)) [
    | inr (old, e) ↦ absurd (cc (rw (write_local, e) at h))
    | inl e ↦ elim (Bool-cases s.disk_works) [
      | inr k ↦ absurd (cc (rw (write_local, e, k) at h))
      | inl k ↦ rw (write_local, e, k, same_text_refl name) refl
    ]
  ]

  put_in_bucket-IsIn :
      (m : Mode) (s : Stores B)
      → (put_in_bucket c env name x s).1 ≡ stored m
      → holds (put_in_bucket c env name x s).0.bucket (key_prefix ++ name) ≡ some x
  put_in_bucket-IsIn m s h = elim (Option-cases (request_key env name)) [
    | inl e ↦ absurd (cc (rw (put_in_bucket, e) at h))
    | inr (key, e) ↦
        let is_key : key ≡ key_prefix ++ name = request_key-key env name key e in
        elim (Bool-cases (c.put_object key x s.bucket).1) [
          | inr k ↦ absurd (cc (rw (put_in_bucket, e, k) at h))
          | inl k ↦ rw (put_in_bucket, e, ← is_key) (law.put_ok key x s.bucket k)
        ]
  ]

  read_local-Serves : (s : Stores B) → find_file name s.dir ≡ some x → Serves x (read_local name s)
  unfolding read_local
  read_local-Serves s h = elim (Bool-cases s.disk_works) [
    | inl k ↦ rw (read_local, h, k) (served none true)
    | inr k ↦ rw (read_local, h, k) store_fails
  ]

  serve_got-Serves :
      (got : Got) (key : Text) (s after : Stores B)
      → key ≡ key_prefix ++ name
      → (c.get_object key s.bucket).1 ≡ got
      → holds s.bucket (key_prefix ++ name) ≡ some x
      → Serves x (serve_got env name got after).1
  serve_got-Serves failed key s after q e h = store_fails
  serve_got-Serves (found y etag) key s after q e h =
      let same : y ≡ x = cc (rw q at (law.get_found key s.bucket y etag e), h) in
      rw same (served etag false)
  serve_got-Serves missing key s after q e h =
      absurd (cc (rw q at (law.get_missing key s.bucket e), h))

  get_from_bucket-Serves :
      (s : Stores B)
      → holds s.bucket (key_prefix ++ name) ≡ some x
      → Serves x (get_from_bucket c env name s).1
  get_from_bucket-Serves s h = elim (Option-cases (request_key env name)) [
    | inl e ↦ rw (get_from_bucket, e) store_fails
    | inr (key, e) ↦
        rw (get_from_bucket, e)
          (serve_got-Serves (c.get_object key s.bucket).1 key s _ (request_key-key env name key e)
            refl h)
  ]

  -- A read serves what is stored.
  pub read_avatar-Serves :
      (s : Stores B) → IsIn env.storage_mode s → Serves x (read_avatar c env name s).1
  unfolding read_avatar
  read_avatar-Serves s h = elim (Option-cases env.storage_mode) [
    | inl e ↦ absurd (rw e at h)
    | inr (local, e) ↦ rw (read_avatar, managed, e) (read_local-Serves s (rw e at h))
    | inr (s3, e) ↦ rw (read_avatar, managed, e) (get_from_bucket-Serves s (rw e at h))
  ]

  delete_local-keeps :
      (old : Text) (s : Stores B)
      → same_text old name ≡ false
      → find_file name s.dir ≡ some x
      → find_file name (delete_local old s).0.dir ≡ some x
  unfolding delete_local
  delete_local-keeps old s ne h = elim (Option-cases (find_file old s.dir)) [
    | inl e ↦ rw (delete_local, e) h
    | inr (y, e) ↦ elim (Bool-cases s.disk_works) [
      | inr k ↦ rw (delete_local, e, k) h
      | inl k ↦ rw (delete_local, e, k, other_file name old s.dir ne) h
    ]
  ]

  delete_in_bucket-keeps :
      (old : Text) (s : Stores B)
      → same_text old name ≡ false
      → holds s.bucket (key_prefix ++ name) ≡ some x
      → holds (delete_in_bucket c env old s).0.bucket (key_prefix ++ name) ≡ some x
  delete_in_bucket-keeps old s ne h = elim (Option-cases (request_key env old)) [
    | inl e ↦ rw (delete_in_bucket, e) h
    | inr (key, e) ↦
        let other : same_text key (key_prefix ++ name) ≡ false =
          rw (request_key-key env old key e) (same_text_prefix key_prefix old name ∙ ne) in
        rw (delete_in_bucket, e) (law.delete_other key (key_prefix ++ name) s.bucket other ∙ h)
  ]

  -- The deletion of another name keeps the file.
  pub delete_avatar-IsIn :
      (old : Text) (s : Stores B)
      → same_text old name ≡ false
      → IsIn env.storage_mode s
      → IsIn env.storage_mode (delete_avatar c env old s).0
  unfolding delete_avatar
  delete_avatar-IsIn old s ne h = elim (Bool-cases (is_managed_file old)) [
    | inr k ↦ rw (delete_avatar, k) h
    | inl k ↦ elim (Option-cases env.storage_mode) [
      | inl e ↦ absurd (rw e at h)
      | inr (local, e) ↦ rw (delete_avatar, k, e) (delete_local-keeps old s ne (rw e at h))
      | inr (s3, e) ↦ rw (delete_avatar, k, e) (delete_in_bucket-keeps old s ne (rw e at h))
    ]
  ]

-- A write that succeeds stores the file.
module _ {B : Type 0} (c : S3 B) (holds : B → Text → Option Buffer) (law : IsBucket c holds)
    (env : Environment) (name : Text) (managed : is_managed_file name ≡ true) where
  pub write_avatar-IsIn :
      (x : Buffer) (m : Mode) (s : Stores B)
      → (write_avatar c env name x s).1 ≡ stored m
      → IsIn c holds law env name x managed env.storage_mode (write_avatar c env name x s).0
  unfolding write_avatar
  write_avatar-IsIn [] m s h = absurd (cc (rw (write_avatar, managed) at h))
  write_avatar-IsIn (y ∷ ys) m s h = elim (Option-cases env.storage_mode) [
    | inl e ↦ absurd (cc (rw (write_avatar, managed, e) at h))
    | inr (local, e) ↦
        rw (write_avatar, managed, e)
          (write_local-IsIn c holds law env name (y ∷ ys) managed m s
            (rw (write_avatar, managed, e) at h))
    | inr (s3, e) ↦
        rw (write_avatar, managed, e)
          (put_in_bucket-IsIn c holds law env name (y ∷ ys) managed m s
            (rw (write_avatar, managed, e) at h))
  ]
