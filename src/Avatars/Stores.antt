-- ===== src/Avatars/Stores.antt =====
-- Chess-Backend/src/services/avatarStore.js: the two stores, a directory and a bucket of S3. A buffer
-- is the list of its bytes. The SDK's client is `S3`; a call that the timer of `withTimeout` overtakes
-- is a call that failed.
use end_to_end_kubernetes_ch.Base.{
  ℕ, suc, Bool, true, false, not, Option, none, some, List, [], ◌∷◌, ◌&&◌, if◌then◌else◌, filter,
}
use end_to_end_kubernetes_ch.Avatars.{Text, same_text, is_managed_file, key_for_filename}

abbrev pub Buffer : Type 0
Buffer = List ℕ

-- `AVATAR_STORAGE`
pub data Mode : Type 0 where
  local s3 : Mode

-- The environment: `none` is a value of `AVATAR_STORAGE` at which `storageMode` throws. `has_bucket`
-- and `has_region` say that `S3_AVATARS_BUCKET` and one of the two names of the region are set.
pub record Environment : Type 0 where
  pub storage_mode : Option Mode
  pub has_bucket : Bool
  pub has_region : Bool
  pub legacy_fallback : Bool

-- What the calls of the SDK answer; the absence that `isMissing` reads from an error is `missing`.
pub data Got : Type 0 where
  found : Buffer → Option Text → Got
  missing failed : Got

pub data Removed : Type 0 where
  removed was_missing not_removed : Removed

-- `PutObjectCommand`, `GetObjectCommand` and `DeleteObjectCommand` on a bucket `B`, which holds what
-- the calls depend on beside the objects too.
pub record S3 (B : Type 0) : Type 0 where
  pub put_object : Text → Buffer → B → B × Bool
  pub get_object : Text → B → B × Got
  pub delete_object : Text → B → B × Removed

-- The directory: names and contents. `disk_works` is what the file system says to the next call that
-- is not refused for another reason.
pub record Stores (B : Type 0) : Type 0 where
  pub dir : List (Text × Buffer)
  pub disk_works : Bool
  pub bucket : B
  -- `s3_legacy_fallback_reads_total`
  pub fallbacks : ℕ

abbrev pub find_file : Text → List (Text × Buffer) → Option Buffer
find_file name [] = none
find_file name ((n, x) ∷ dir) = if same_text n name then some x else find_file name dir

pub data Written : Type 0 where
  stored : Mode → Written
  -- `Refusing unsafe avatar filename`, `Avatar buffer is empty`, and what `storageMode` throws
  unsafe_name empty_buffer no_mode : Written
  -- an error of the file system
  disk_error : Written
  -- `Unable to store avatar`
  unable : Written

pub data Read : Type 0 where
  body : Buffer → Option Text → Bool → Read
  nothing : Read
  unreadable : Read

-- The arguments of `send`: each of the three throws inside the `try`.
abbrev pub request_key : Environment → Text → Option Text
request_key env name = if env.has_region && env.has_bucket then key_for_filename name else none

abbrev pub is_gone : Removed → Bool
is_gone removed = true
is_gone was_missing = true
is_gone not_removed = false

module _ {B : Type 0} where
  -- `writeLocal`, with the flag `wx`
  unfoldable pub write_local : Text → Buffer → Stores B → Stores B × Written
  write_local name x s = elim (find_file name s.dir) [
    | some old ↦ (s, disk_error)
    | none ↦
        if s.disk_works
        then (record s { dir = (name, x) ∷ s.dir }, stored local)
        else (s, disk_error)
  ]

  -- `readLocal`
  unfoldable pub read_local : Text → Stores B → Read
  read_local name s = elim (find_file name s.dir) [
    | none ↦ nothing
    | some x ↦ if s.disk_works then body x none true else unreadable
  ]

  abbrev pub put_in_bucket : S3 B → Environment → Text → Buffer → Stores B → Stores B × Written
  put_in_bucket c env name x s = elim (request_key env name) [
    | none ↦ (s, unable)
    | some key ↦
        let (bucket, ok) = c.put_object key x s.bucket in
        (record s { bucket = bucket }, if ok then stored s3 else unable)
  ]

  -- `writeAvatar`
  unfoldable pub write_avatar : S3 B → Environment → Text → Buffer → Stores B → Stores B × Written
  write_avatar c env name [] s =
      if is_managed_file name then (s, empty_buffer) else (s, unsafe_name)
  write_avatar c env name (x ∷ xs) s =
      if is_managed_file name
      then elim env.storage_mode [
        | none ↦ (s, no_mode)
        | some mode ↦ elim mode [
          | local ↦ write_local name (x ∷ xs) s
          | s3 ↦ put_in_bucket c env name (x ∷ xs) s
        ]
      ]
      else (s, unsafe_name)

  -- The `catch` of `readAvatar` for an object that is missing: the fallback, and its count.
  abbrev pub count_fallback : Read → Stores B → Stores B
  count_fallback (body x etag legacy) s = record s { fallbacks = suc s.fallbacks }
  count_fallback nothing s = s
  count_fallback unreadable s = s

  abbrev pub fall_back : Environment → Text → Stores B → Stores B × Read
  fall_back env name s =
      if env.legacy_fallback
      then (count_fallback (read_local name s) s, read_local name s)
      else (s, nothing)

  abbrev pub serve_got : Environment → Text → Got → Stores B → Stores B × Read
  serve_got env name (found x etag) s = (s, body x etag false)
  serve_got env name failed s = (s, unreadable)
  serve_got env name missing s = fall_back env name s

  abbrev pub get_from_bucket : S3 B → Environment → Text → Stores B → Stores B × Read
  get_from_bucket c env name s = elim (request_key env name) [
    | none ↦ (s, unreadable)
    | some key ↦
        let (bucket, got) = c.get_object key s.bucket in
        serve_got env name got (record s { bucket = bucket })
  ]

  -- `readAvatar`; what `storageMode` throws is an error as well.
  unfoldable pub read_avatar : S3 B → Environment → Text → Stores B → Stores B × Read
  read_avatar c env name s =
      if is_managed_file name
      then elim env.storage_mode [
        | none ↦ (s, unreadable)
        | some mode ↦ elim mode [
          | local ↦ (s, read_local name s)
          | s3 ↦ get_from_bucket c env name s
        ]
      ]
      else (s, nothing)

  unfoldable pub delete_local : Text → Stores B → Stores B × Bool
  delete_local name s = elim (find_file name s.dir) [
    | none ↦ (s, true)
    | some x ↦
        if s.disk_works
        then (
          record s { dir = filter (λ (file : Text × Buffer). not (same_text file.0 name)) s.dir },
          true,
        )
        else (s, false)
  ]

  abbrev pub delete_in_bucket : S3 B → Environment → Text → Stores B → Stores B × Bool
  delete_in_bucket c env name s = elim (request_key env name) [
    | none ↦ (s, false)
    | some key ↦
        let (bucket, answer) = c.delete_object key s.bucket in
        (record s { bucket = bucket }, is_gone answer)
  ]

  -- `deleteAvatar`; `none` where `storageMode` throws.
  unfoldable pub delete_avatar : S3 B → Environment → Text → Stores B → Stores B × Option Bool
  delete_avatar c env name s =
      if is_managed_file name
      then elim env.storage_mode [
        | none ↦ (s, none)
        | some mode ↦ elim mode [
          | local ↦ let (after, ok) = delete_local name s in (after, some ok)
          | s3 ↦ let (after, ok) = delete_in_bucket c env name s in (after, some ok)
        ]
      ]
      else (s, some true)
