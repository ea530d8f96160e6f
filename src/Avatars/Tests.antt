-- ===== src/Avatars/Tests.antt =====
-- A bucket, and a site with one user, for Chess-Backend/src/services/avatarStore.js.
use end_to_end_kubernetes_ch.Base.{
  decimal_from, ◌≡◌, refl, ap, true, not, Option, none, some, List, [], ◌∷◌, ◌++◌, filter,
}
use end_to_end_kubernetes_ch.Accounts.{
  Account, public_fields, set_avatar, replace_avatar, find_user,
}
use end_to_end_kubernetes_ch.Accounts.Tests.{ana, site}
use end_to_end_kubernetes_ch.Avatars.{
  Text, same_text, url_prefix, key_prefix, is_managed_file, key_for_filename,
  managed_avatar_filename, strip, strip_run, drop_run,
}
use end_to_end_kubernetes_ch.Avatars.Stores.{
  Buffer, local, s3, Environment, Got, found, missing, removed, S3, Stores, find_file, write_avatar,
  read_avatar, delete_avatar,
}
use end_to_end_kubernetes_ch.Avatars.Container.{has_complete_container}
use end_to_end_kubernetes_ch.Avatars.Png.{Chunk}
use end_to_end_kubernetes_ch.Avatars.Upload.{
  Decoder, jpeg, decode_and_normalize_image, new_filename, updated, upload, save_avatar, get_avatar,
}
use end_to_end_kubernetes_ch.Avatars.Names.{same_text_refl}
use end_to_end_kubernetes_ch.Avatars.Stored.{IsBucket, Serves, other_file}
use end_to_end_kubernetes_ch.Avatars.Uploaded.{upload-get_avatar, upload-updated}
use end_to_end_kubernetes_ch.Avatars.Deleted.{Leaves, removed_file, delete_avatar-read_avatar}

-- A bucket that always answers: its objects with their keys.
abbrev pub Objects : Type 0
Objects = List (Text × Buffer)

abbrev pub got_of : Option Buffer → Got
got_of none = missing
got_of (some x) = found x none

abbrev pub client : S3 Objects
client = record {
  put_object = λ k x b. ((k, x) ∷ b, true);
  get_object = λ k b. (b, got_of (find_file k b));
  delete_object = λ k b. (filter (λ (file : Text × Buffer). not (same_text file.0 k)) b, removed);
}

abbrev pub object_at : Objects → Text → Option Buffer
object_at b k = find_file k b

got_of-found :
    (o : Option Buffer) (x : Buffer) (etag : Option Text) → got_of o ≡ found x etag → o ≡ some x
got_of-found none x etag h = absurd (cc h)
got_of-found (some y) x etag h = cc h

got_of-missing : (o : Option Buffer) → got_of o ≡ missing → o ≡ none
got_of-missing none h = refl
got_of-missing (some y) h = absurd (cc h)

client-IsBucket : IsBucket client object_at
client-IsBucket = record {
  put_ok = λ k x b h. rw (same_text_refl k) refl;
  put_other = λ k j x b h. rw h refl;
  get_found = λ k b x etag h. got_of-found (find_file k b) x etag h;
  get_missing = λ k b h. got_of-missing (find_file k b) h;
  delete_ok = λ k b h. removed_file k b;
  delete_other = λ k j b h. other_file j k b h;
}

abbrev pub on_s3 : Environment
on_s3 = record {
  storage_mode = some s3;
  has_bucket = true;
  has_region = true;
  legacy_fallback = true;
}

abbrev pub on_disk : Environment
on_disk = record on_s3 { storage_mode = some local }

abbrev pub no_files : Stores Objects
no_files = record { dir = []; disk_works = true; bucket = []; fallbacks = 0 }

-- A JPEG, and what the decoder makes of every image
abbrev pub photo : Buffer
photo = 255 ∷ 216 ∷ 1 ∷ 255 ∷ 217 ∷ []

abbrev pub to_webp : Decoder
to_webp = record {
  metadata = λ x. some (record { width = 64; height = 64; pages = 0; format = jpeg });
  normalize = λ x. some (82 ∷ 73 ∷ []);
}

upload-get_avatar_example :
    (image : Buffer) × (decode_and_normalize_image to_webp photo ≡ some image)
    × ((public_fields (set_avatar (url_prefix ++ new_filename 1 (b'a' ∷ [])) ana)).avatar_url
        ≡ some (some (url_prefix ++ new_filename 1 (b'a' ∷ []))))
    × Serves image
        (get_avatar client on_s3
          (new_filename 1 (b'a' ∷ []))
          (upload client on_s3 to_webp true 1 (b'a' ∷ []) (some photo) site no_files).1).1
unfolding upload decode_and_normalize_image has_complete_container write_avatar save_avatar
    replace_avatar is_managed_file strip strip_run drop_run key_for_filename decimal_from
    managed_avatar_filename public_fields find_user
upload-get_avatar_example =
    upload-get_avatar client object_at client-IsBucket on_s3 to_webp true 1 b'a' [] photo site
      no_files _ refl
      (λ a e q. let p : ana ≡ a = cc e in cc (ap (λ (r : Account). r.avatar_url) p, q)) refl

-- An object of the name is in the bucket, and an older file in the directory: it is served still.
abbrev pub both_stores : Stores Objects
both_stores = record {
  dir = (new_filename 1 (b'a' ∷ []), 1 ∷ []) ∷ [];
  disk_works = true;
  bucket = (key_prefix ++ new_filename 1 (b'a' ∷ []), 2 ∷ []) ∷ [];
  fallbacks = 0;
}

delete_avatar-read_avatar_example :
    Leaves
      (some s3)
      true
      (some (1 ∷ []))
      (read_avatar client on_s3
        (new_filename 1 (b'a' ∷ []))
        (delete_avatar client on_s3 (new_filename 1 (b'a' ∷ [])) both_stores).0).1
unfolding delete_avatar is_managed_file strip strip_run drop_run key_for_filename decimal_from
delete_avatar-read_avatar_example =
    delete_avatar-read_avatar client object_at client-IsBucket on_s3 (new_filename 1 (b'a' ∷ []))
      both_stores refl

-- A PNG with one chunk before its end, and a byte after it.
abbrev pub header_chunk : Chunk
header_chunk = record {
  type0 = b'I';
  type1 = b'H';
  type2 = b'D';
  type3 = b'R';
  content = 1 ∷ 2 ∷ [];
  crc0 = 9;
  crc1 = 9;
  crc2 = 9;
  crc3 = 9;
}

abbrev pub last_chunk : Chunk
last_chunk = record {
  type0 = b'I';
  type1 = b'E';
  type2 = b'N';
  type3 = b'D';
  content = [];
  crc0 = 174;
  crc1 = 66;
  crc2 = 96;
  crc3 = 130;
}

upload-updated_example :
    (upload client on_disk to_webp true 1 (b'a' ∷ []) (some photo) site no_files).2
    ≡ updated (public_fields (set_avatar (url_prefix ++ new_filename 1 (b'a' ∷ [])) ana))
unfolding decode_and_normalize_image has_complete_container find_user
upload-updated_example =
    upload-updated client on_disk to_webp 1 b'a' [] photo site no_files 82 (73 ∷ []) ana refl refl
      refl refl refl refl
