-- ===== src/Avatars/Deleted.antt =====
-- `deleteAvatar` of avatarStore.js against `readAvatar`.
use end_to_end_kubernetes_ch.Base.{
  ◌≡◌, refl, inl, inr, Bool, true, not, Option, none, some, List, [], ◌∷◌, filter, Bool-cases,
  Option-cases,
}
use end_to_end_kubernetes_ch.Avatars.{Text, same_text, is_managed_file}
use end_to_end_kubernetes_ch.Avatars.Stores.{
  Buffer, Mode, local, s3, Environment, Got, found, missing, failed, S3, Stores, find_file, Read,
  body, nothing, unreadable, request_key, read_local, fall_back, serve_got, get_from_bucket,
  read_avatar, delete_local, delete_in_bucket, delete_avatar,
}
use end_to_end_kubernetes_ch.Avatars.Stored.{IsBucket}

-- What a read gives after a deletion: nothing, a failure of the store, or, on S3 with the fallback,
-- the copy in the directory, which the deletion leaves.
pub data Leaves (mode : Option Mode) (fallback : Bool) (file : Option Buffer) : Read → Type 0 where
  gone : Leaves mode fallback file nothing
  store_fails : Leaves mode fallback file unreadable
  legacy_copy :
      (x : Buffer)
      → mode ≡ some s3
      → fallback ≡ true
      → file ≡ some x
      → Leaves mode fallback file (body x none true)

pub removed_file :
    (name : Text) (dir : List (Text × Buffer))
    → find_file name (filter (λ (file : Text × Buffer). not (same_text file.0 name)) dir) ≡ none
removed_file name [] = refl
removed_file name ((n, x) ∷ dir) = elim (Bool-cases (same_text n name)) [
  | inl e ↦ rw e (removed_file name dir)
  | inr e ↦ rw (e, e) (removed_file name dir)
]

module _ {B : Type 0} (c : S3 B) (holds : B → Text → Option Buffer) (law : IsBucket c holds)
    (env : Environment) (name : Text) (s : Stores B) (mode : Option Mode) where
  local-Leaves :
      (delete_local name s).1 ≡ true
      → Leaves mode env.legacy_fallback
          (find_file name s.dir)
          (read_local name (delete_local name s).0)
  unfolding delete_local read_local
  local-Leaves h = elim (Option-cases (find_file name s.dir)) [
    | inl e ↦ rw (delete_local, e, read_local, e) gone
    | inr (x, e) ↦ elim (Bool-cases s.disk_works) [
      | inr k ↦ absurd (cc (rw (delete_local, e, k) at h))
      | inl k ↦ rw (delete_local, e, k, read_local, removed_file name s.dir) gone
    ]
  ]

  fall_back-Leaves :
      (after : Stores B)
      → mode ≡ some s3
      → after.dir ≡ s.dir
      → Leaves mode env.legacy_fallback (find_file name s.dir) (fall_back env name after).1
  unfolding read_local
  fall_back-Leaves after m q = elim (Bool-cases env.legacy_fallback) [
    | inr k ↦ rw (fall_back, k) gone
    | inl k ↦ elim (Option-cases (find_file name s.dir)) [
      | inl e ↦ rw (fall_back, k, read_local, q, e) gone
      | inr (x, e) ↦ elim (Bool-cases after.disk_works) [
        | inr w ↦ rw (fall_back, k, read_local, q, e, w) store_fails
        | inl w ↦ rw (fall_back, k, read_local, q, e, w) (legacy_copy x m refl refl)
      ]
    ]
  ]

  serve_got-Leaves :
      (got : Got) (key : Text) (b : B) (after : Stores B)
      → mode ≡ some s3
      → after.dir ≡ s.dir
      → (c.get_object key b).1 ≡ got
      → holds b key ≡ none
      → Leaves mode env.legacy_fallback (find_file name s.dir) (serve_got env name got after).1
  serve_got-Leaves failed key b after m q e h = store_fails
  serve_got-Leaves missing key b after m q e h = fall_back-Leaves after m q
  serve_got-Leaves (found x etag) key b after m q e h =
      absurd (cc (law.get_found key b x etag e, h))

  bucket-Leaves :
      mode ≡ some s3
      → (delete_in_bucket c env name s).1 ≡ true
      → Leaves mode env.legacy_fallback
          (find_file name s.dir)
          (get_from_bucket c env name (delete_in_bucket c env name s).0).1
  bucket-Leaves m h = elim (Option-cases (request_key env name)) [
    | inl e ↦ absurd (cc (rw (delete_in_bucket, e) at h))
    | inr (key, e) ↦
        rw (delete_in_bucket, e, get_from_bucket, e)
          (serve_got-Leaves _ key _ _ m refl refl
            (law.delete_ok key s.bucket (rw (delete_in_bucket, e) at h)))
  ]

module _ {B : Type 0} (c : S3 B) (holds : B → Text → Option Buffer) (law : IsBucket c holds)
    (env : Environment) (name : Text) (s : Stores B) where
  -- After a deletion that reports success a read finds nothing, unless the store fails or the mode is
  -- S3 with the fallback and the directory has a file of that name, which is then served still. The
  -- bucket behaves as documented.
  pub delete_avatar-read_avatar :
      (delete_avatar c env name s).1 ≡ some true
      → Leaves env.storage_mode env.legacy_fallback
          (find_file name s.dir)
          (read_avatar c env name (delete_avatar c env name s).0).1
  unfolding delete_avatar read_avatar
  delete_avatar-read_avatar h = elim (Bool-cases (is_managed_file name)) [
    | inr k ↦ rw (read_avatar, k) gone
    | inl k ↦ elim (Option-cases env.storage_mode) [
      | inl e ↦ absurd (cc (rw (delete_avatar, k, e) at h))
      | inr (local, e) ↦
          let ok = rw (delete_avatar, k, e) at h in
          rw (delete_avatar, k, e, read_avatar, k, e)
            (local-Leaves c holds law env name s (some local) (cc ok))
      | inr (s3, e) ↦
          let ok = rw (delete_avatar, k, e) at h in
          rw (delete_avatar, k, e, read_avatar, k, e)
            (bucket-Leaves c holds law env name s (some s3) refl (cc ok))
    ]
  ]
