-- ===== src/Avatars/Uploaded.antt =====
-- An upload of an avatar (routes/auth.js, middleware/upload.js) against the route that reads it.
use end_to_end_kubernetes_ch.Base.{
  ℕ, ◌≡◌, ◌≢◌, ◌∙◌, refl, sym, ap, inl, inr, Bool, true, false, Option, none, some, ◌∷◌, ◌++◌,
  Bool-cases, Option-cases, all,
}
use end_to_end_kubernetes_ch.Accounts.{
  set_avatar, Account, PublicFields, Site, public_fields, find_user, replace_avatar,
}
use end_to_end_kubernetes_ch.Avatars.{
  Text, same_text, url_prefix, is_managed_file, is_uuid_char, managed_avatar_filename,
}
use end_to_end_kubernetes_ch.Avatars.Stores.{
  Buffer, Mode, local, Environment, S3, Stores, find_file, write_local, Written, stored,
  unsafe_name, empty_buffer, no_mode, disk_error, unable, write_avatar, delete_avatar,
}
use end_to_end_kubernetes_ch.Avatars.Upload.{
  Decoder, decode_and_normalize_image, new_filename, UploadReply, updated, drop_old, save_avatar,
  save_written, upload, get_avatar,
}
use end_to_end_kubernetes_ch.Avatars.Names.{
  same_text_eq, new_filename-is_managed_file, managed_avatar_filename-url,
}
use end_to_end_kubernetes_ch.Avatars.Stored.{
  IsBucket, Serves, IsIn, write_avatar-IsIn, delete_avatar-IsIn, read_avatar-Serves,
}

-- The URL in a reply, whatever name the reply has.
url_of :
    (profile p : PublicFields) (url : Option (Option Text))
    → updated p ≡ updated profile
    → profile.avatar_url ≡ url
    → p.avatar_url ≡ url
url_of profile p url e h =
    let q : p ≡ profile = cc e in ap (λ (f : PublicFields). f.avatar_url) q ∙ h

module _ {B : Type 0} (c : S3 B) (holds : B → Text → Option Buffer) (law : IsBucket c holds)
    (env : Environment) (name : Text) (x : Buffer) (managed : is_managed_file name ≡ true) where
  -- A reply that the avatar was updated, and what holds then.
  abbrev Kept : Site × Stores B × UploadReply → Type 0
  Kept r =
      (profile : PublicFields)
      → r.2 ≡ updated profile
      → (profile.avatar_url ≡ some (some (url_prefix ++ name)))
        × IsIn c holds law env name x managed env.storage_mode r.1

  drop_old-Kept :
      (old : Option Text) (profile : PublicFields) (w : Site) (s : Stores B)
      → profile.avatar_url ≡ some (some (url_prefix ++ name))
      → ((o : Text) → old ≡ some o → same_text o name ≡ false)
      → IsIn c holds law env name x managed env.storage_mode s
      → Kept (drop_old c env name old profile w s)
  drop_old-Kept none profile w s url other h p e = (url_of profile p _ (sym e) url, h)
  drop_old-Kept (some o) profile w s url other h p e =
      elim (Option-cases (delete_avatar c env o s).1) [
        | inl k ↦ absurd (cc (rw (drop_old, k) at e))
        | inr (gone, k) ↦ (
          url_of profile p _ (sym (rw (drop_old, k) at e)) url,
          rw (drop_old, k) (delete_avatar-IsIn c holds law env name x managed o s (other o refl) h),
        )
      ]

  -- The URL of another file than the new one is not deleted with it.
  not_new :
      (url : Option Text)
      → url ≢ some (url_prefix ++ name)
      → (o : Text) → managed_avatar_filename url ≡ some o
      → same_text o name ≡ false
  not_new url ne o h = elim (Bool-cases (same_text o name)) [
    | inr k ↦ k
    | inl k ↦ absurd (ne (rw (same_text_eq o name k) at (managed_avatar_filename-url url o h).0))
  ]

  save_avatar-Kept :
      (database_works : Bool) (user : ℕ) (w : Site) (s : Stores B)
      → ((a : Account) → find_user user w ≡ some a → a.avatar_url ≢ some (url_prefix ++ name))
      → IsIn c holds law env name x managed env.storage_mode s
      → Kept (save_avatar c env database_works user name w s)
  unfolding save_avatar replace_avatar public_fields
  save_avatar-Kept false user w s fresh h = λ p e. absurd (cc e)
  save_avatar-Kept true user w s fresh h = elim (Option-cases (find_user user w)) [
    | inl k ↦ λ p e. absurd (cc (rw (save_avatar, replace_avatar, k) at e))
    | inr (a, k) ↦
        rw (save_avatar, replace_avatar, k)
          (drop_old-Kept (managed_avatar_filename a.avatar_url) _ _ s refl
            (not_new a.avatar_url (fresh a k)) h)
  ]

  save_written-Kept :
      (r : Written) (database_works : Bool) (user : ℕ) (w : Site) (s : Stores B)
      → ((a : Account) → find_user user w ≡ some a → a.avatar_url ≢ some (url_prefix ++ name))
      → ((m : Mode) → r ≡ stored m → IsIn c holds law env name x managed env.storage_mode s)
      → Kept (save_written c env database_works user name r w s)
  save_written-Kept (stored m) db user w s fresh h = save_avatar-Kept db user w s fresh (h m refl)
  save_written-Kept unsafe_name db user w s fresh h = λ p e. absurd (cc e)
  save_written-Kept empty_buffer db user w s fresh h = λ p e. absurd (cc e)
  save_written-Kept no_mode db user w s fresh h = λ p e. absurd (cc e)
  save_written-Kept disk_error db user w s fresh h = λ p e. absurd (cc e)
  save_written-Kept unable db user w s fresh h = λ p e. absurd (cc e)

module _ {B : Type 0} (c : S3 B) (holds : B → Text → Option Buffer) (law : IsBucket c holds)
    (env : Environment) (decode : Decoder) (database_works : Bool) (user u : ℕ) (us : Text)
    (file : Buffer) (w : Site) (s : Stores B) where
  -- An upload that is answered with the user has stored the normalized image, and unless the store
  -- fails the route serves it under the URL of the profile. The bucket behaves as documented, the
  -- name is made of a UUID, and the user does not have the new URL already.
  pub upload-get_avatar :
      (profile : PublicFields)
      → all is_uuid_char (u ∷ us) ≡ true
      → ((a : Account)
          → find_user user w ≡ some a
          → a.avatar_url ≢ some (url_prefix ++ new_filename user (u ∷ us)))
      → (upload c env decode database_works user (u ∷ us) (some file) w s).2 ≡ updated profile
      → (image : Buffer) × (decode_and_normalize_image decode file ≡ some image)
        × (profile.avatar_url ≡ some (some (url_prefix ++ new_filename user (u ∷ us))))
        × Serves image
            (get_avatar c env
              (new_filename user (u ∷ us))
              (upload c env decode database_works user (u ∷ us) (some file) w s).1).1
  unfolding upload get_avatar
  upload-get_avatar profile uuid fresh e =
      elim (Option-cases (decode_and_normalize_image decode file)) [
        | inl k ↦ absurd (cc (rw (upload, k) at e))
        | inr (image, k) ↦
            let name = new_filename user (u ∷ us) in
            let managed = new_filename-is_managed_file user u us uuid in
            let (url, kept) =
              save_written-Kept c holds law env name image managed
                (write_avatar c env name image s).1 database_works user w
                (write_avatar c env name image s).0 fresh
                (λ m q. write_avatar-IsIn c holds law env name managed image m s q) profile
                (rw (upload, k) at e) in
            (
              image,
              k,
              url,
              rw (upload, k) (read_avatar-Serves c holds law env name image managed _ kept),
            )
      ]

module _ {B : Type 0} (c : S3 B) (env : Environment) (decode : Decoder) (user u : ℕ) (us : Text)
    (file : Buffer) (w : Site) (s : Stores B) where
  drop_old-updated :
      (old : Option Text) (name : Text) (profile : PublicFields) (site : Site) (after : Stores B)
      → env.storage_mode ≡ some local
      → (drop_old c env name old profile site after).2 ≡ updated profile
  unfolding delete_avatar
  drop_old-updated none name profile site after m = refl
  drop_old-updated (some o) name profile site after m = elim (Bool-cases (is_managed_file o)) [
    | inr k ↦ rw (drop_old, delete_avatar, k) refl
    | inl k ↦ rw (drop_old, delete_avatar, k, m) refl
  ]

  save_avatar-updated :
      (name : Text) (a : Account) (after : Stores B)
      → env.storage_mode ≡ some local
      → find_user user w ≡ some a
      → (save_avatar c env true user name w after).2
        ≡ updated (public_fields (set_avatar (url_prefix ++ name) a))
  unfolding save_avatar replace_avatar
  save_avatar-updated name a after m row =
      rw (save_avatar, replace_avatar, row)
        (drop_old-updated (managed_avatar_filename a.avatar_url) name _ _ after m)

  write_avatar-stored :
      (name : Text) (x : ℕ) (xs : Buffer)
      → is_managed_file name ≡ true
      → env.storage_mode ≡ some local
      → s.disk_works ≡ true
      → find_file name s.dir ≡ none
      → (write_avatar c env name (x ∷ xs) s).1 ≡ stored local
  unfolding write_avatar write_local
  write_avatar-stored name x xs managed m disk free =
      rw (write_avatar, managed, m, write_local, free, disk) refl

  -- On the local disk an upload of an accepted image succeeds, if the disk and the database work, the
  -- user has a row and no file has the new name.
  pub upload-updated :
      (x : ℕ) (xs : Buffer) (a : Account)
      → all is_uuid_char (u ∷ us) ≡ true
      → env.storage_mode ≡ some local
      → s.disk_works ≡ true
      → find_file (new_filename user (u ∷ us)) s.dir ≡ none
      → decode_and_normalize_image decode file ≡ some (x ∷ xs)
      → find_user user w ≡ some a
      → (upload c env decode true user (u ∷ us) (some file) w s).2
        ≡ updated (public_fields (set_avatar (url_prefix ++ new_filename user (u ∷ us)) a))
  unfolding upload
  upload-updated x xs a uuid m disk free image row =
      let managed = new_filename-is_managed_file user u us uuid in
      rw (upload, image, write_avatar-stored (new_filename user (u ∷ us)) x xs managed m disk free)
        (save_avatar-updated (new_filename user (u ∷ us)) a _ m row)
