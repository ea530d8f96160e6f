-- ===== src/Avatars/Upload.antt =====
-- The upload of an avatar: `inspectAndStoreAvatar` of Chess-Backend/src/middleware/upload.js, the
-- handler behind it in Chess-Backend/src/routes/auth.js, and the route of Chess-Backend/src/server.js
-- that reads avatars. The user is the one that `authMiddleware` has found.
use end_to_end_kubernetes_ch.Base.{
  decimal, ℕ, Bool, true, false, not, Option, none, some, ◌∷◌, ◌++◌, ◌&&◌, ◌||◌, ◌==◌, ltb, ◌>>=◌,
  if◌then◌else◌,
}
use end_to_end_kubernetes_ch.Accounts.{PublicFields, Site, public_fields, replace_avatar}
use end_to_end_kubernetes_ch.Avatars.{
  Text, user_prefix, webp_suffix, url_prefix, managed_avatar_filename,
}
use end_to_end_kubernetes_ch.Avatars.Stores.{
  Buffer, Environment, S3, Stores, Written, stored, unable, Read, write_avatar, read_avatar,
  delete_avatar,
}
use end_to_end_kubernetes_ch.Avatars.Container.{has_complete_container}

-- `user${req.user.id}-${crypto.randomUUID()}.webp`
abbrev pub new_filename : ℕ → Text → Text
new_filename user uuid = user_prefix ++ (decimal user ++ (b'-' ∷ (uuid ++ webp_suffix)))

pub data Format : Type 0 where
  jpeg png gif webp other_format : Format

-- `pages` is 0 where sharp gives none.
pub record Metadata : Type 0 where
  pub width : ℕ
  pub height : ℕ
  pub pages : ℕ
  pub format : Format

-- The image decoder `sharp`; `none` where it throws. `normalize` is the rotated and resized image as
-- WebP.
pub record Decoder : Type 0 where
  pub metadata : Buffer → Option Metadata
  pub normalize : Buffer → Option Buffer

abbrev pub is_known : Format → Bool
is_known other_format = false
is_known _ = true

-- The three tests of the metadata, of which each throws.
abbrev pub is_small_image : Metadata → Bool
is_small_image m =
    not (m.width == 0 || m.height == 0 || ltb 1 m.pages)
    && (is_known m.format && not (ltb 4096 m.width || ltb 4096 m.height))

-- `decodeAndNormalizeImage`
unfoldable pub decode_and_normalize_image : Decoder → Buffer → Option Buffer
decode_and_normalize_image decode x =
    if has_complete_container x
    then (decode.metadata x >>= λ m. if is_small_image m then decode.normalize x else none)
    else none

-- What the upload answers: 400 in two cases, 500 in two, or the user.
pub data UploadReply : Type 0 where
  no_image invalid_image unable_to_store unable_to_update : UploadReply
  updated : PublicFields → UploadReply

-- A write that failed otherwise than in S3 throws another error than `Unable to store avatar`.
abbrev pub write_reply : Written → UploadReply
write_reply unable = unable_to_store
write_reply _ = invalid_image

module _ {B : Type 0} (c : S3 B) (env : Environment) where
  -- The `catch` of the handler: the new file goes.
  abbrev pub clean_up : Text → Site → Stores B → Site × Stores B × UploadReply
  clean_up name w s = (w, (delete_avatar c env name s).0, unable_to_update)

  -- The old file goes, if it is one of ours, whether or not the store can delete it.
  abbrev pub drop_old :
      Text → Option Text → PublicFields → Site → Stores B → Site × Stores B × UploadReply
  drop_old name none user w s = (w, s, updated user)
  drop_old name (some old) user w s =
      let (after, ok) = delete_avatar c env old s in
      elim ok [ none ↦ clean_up name w after | some gone ↦ (w, after, updated user) ]

  -- The handler of `POST /avatar`, from `User.replaceAvatar` on.
  unfoldable pub save_avatar : Bool → ℕ → Text → Site → Stores B → Site × Stores B × UploadReply
  save_avatar false user name w s = clean_up name w s
  save_avatar true user name w s =
      let (after, replacement) = replace_avatar user (url_prefix ++ name) w in
      elim replacement [
        | none ↦ clean_up name w s
        | some r ↦ drop_old name (managed_avatar_filename r.1) (public_fields r.0) after s
      ]

  abbrev pub save_written :
      Bool → ℕ → Text → Written → Site → Stores B → Site × Stores B × UploadReply
  save_written database_works user name (stored mode) w s = save_avatar database_works user name w s
  save_written database_works user name failed w s = (w, s, write_reply failed)

  -- `POST /avatar`: `inspectAndStoreAvatar`, then the handler.
  unfoldable pub upload :
      Decoder → Bool → ℕ → Text → Option Buffer → Site → Stores B → Site × Stores B × UploadReply
  upload decode database_works user uuid none w s = (w, s, no_image)
  upload decode database_works user uuid (some file) w s =
      elim (decode_and_normalize_image decode file) [
        | none ↦ (w, s, invalid_image)
        | some image ↦
            let name = new_filename user uuid in
            let (after, written) = write_avatar c env name image s in
            save_written database_works user name written w after
      ]

  -- What `GET /uploads/avatars/:filename` answers: 200, 404 or 500.
  unfoldable pub get_avatar : Text → Stores B → Stores B × Read
  get_avatar name s = read_avatar c env name s
