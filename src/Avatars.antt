-- ===== src/Avatars.antt =====
-- Chess-Backend/src/services/avatarStore.js: the names of avatars. A text is the list of its character
-- codes. `Stores` has the two stores, `Upload` the route that uses them.
pub mod Stores
pub mod Container
pub mod Png
pub mod Upload
pub mod Names
pub mod Stored
pub mod Uploaded
pub mod Deleted
pub mod Tests
use end_to_end_kubernetes_ch.Base.{
  ℕ, Bool, true, false, Option, none, some, List, [], ◌∷◌, ◌++◌, ◌&&◌, ◌||◌, ◌==◌, leb,
  if◌then◌else◌, ◌>>=◌,
}

abbrev pub Text : Type 0
Text = List ℕ

abbrev pub same_text : Text → Text → Bool
same_text [] [] = true
same_text [] (y ∷ ys) = false
same_text (x ∷ xs) [] = false
same_text (x ∷ xs) (y ∷ ys) = x == y && same_text xs ys

-- The parts of the two regular expressions: a fixed text, and one or more characters of a class. No
-- class has the character that must come after it, so that the longest run is the only one.
unfoldable pub strip : Text → Text → Option Text
strip [] text = some text
strip (p ∷ ps) [] = none
strip (p ∷ ps) (c ∷ cs) = if p == c then strip ps cs else none

unfoldable pub drop_run : (ℕ → Bool) → Text → Text
drop_run is_in [] = []
drop_run is_in (c ∷ cs) = if is_in c then drop_run is_in cs else c ∷ cs

unfoldable pub strip_run : (ℕ → Bool) → Text → Option Text
strip_run is_in [] = none
strip_run is_in (c ∷ cs) = if is_in c then some (drop_run is_in cs) else none

abbrev pub is_digit : ℕ → Bool
is_digit c = leb b'0' c && leb c b'9'

-- `[0-9a-f-]`
abbrev pub is_uuid_char : ℕ → Bool
is_uuid_char c = is_digit c || ((leb b'a' c && leb c b'f') || c == b'-')

abbrev pub user_prefix : Text
user_prefix = b'u' ∷ b's' ∷ b'e' ∷ b'r' ∷ []

abbrev pub webp_suffix : Text
webp_suffix = b'.' ∷ b'w' ∷ b'e' ∷ b'b' ∷ b'p' ∷ []

-- `/uploads/avatars/`
abbrev pub url_prefix : Text
url_prefix =
    b'/' ∷ b'u' ∷ b'p' ∷ b'l' ∷ b'o' ∷ b'a' ∷ b'd' ∷ b's' ∷ b'/' ∷ b'a' ∷ b'v' ∷ b'a' ∷ b't' ∷ b'a'
    ∷ b'r' ∷ b's' ∷ b'/' ∷ []

-- `KEY_PREFIX`
abbrev pub key_prefix : Text
key_prefix = b'a' ∷ b'v' ∷ b'a' ∷ b't' ∷ b'a' ∷ b'r' ∷ b's' ∷ b'/' ∷ []

abbrev pub is_end : Option Text → Bool
is_end none = false
is_end (some text) = same_text text []

-- `MANAGED_FILE_RE.test`
unfoldable pub is_managed_file : Text → Bool
is_managed_file name = is_end (
    strip user_prefix name >>= λ a. strip_run is_digit a >>= λ b.
    strip (b'-' ∷ []) b >>= λ c. strip_run is_uuid_char c >>= strip webp_suffix)

-- `managedAvatarFilename`
unfoldable pub managed_avatar_filename : Option Text → Option Text
managed_avatar_filename none = none
managed_avatar_filename (some path) =
    strip url_prefix path >>= λ name. if is_managed_file name then some name else none

-- `keyForFilename`; `none` where it throws.
unfoldable pub key_for_filename : Text → Option Text
key_for_filename name = if is_managed_file name then some (key_prefix ++ name) else none
