-- ===== src/Avatars/Container.antt =====
-- `hasCompleteContainer` of Chess-Backend/src/middleware/upload.js: a buffer that ends where its image
-- does.
use end_to_end_kubernetes_ch.Base.{
  ℕ, zero, suc, ◌+◌, ◌*◌, ◌-◌, Bool, false, Option, none, some, [], ◌∷◌, ◌&&◌, ◌||◌, ◌==◌, leb, ltb,
  if◌then◌else◌, length, get_elem?,
}
use end_to_end_kubernetes_ch.Avatars.{Text, same_text}
use end_to_end_kubernetes_ch.Avatars.Stores.{Buffer}

-- `subarray(n)` and `subarray(0, n)`
abbrev pub drop : ℕ → Buffer → Buffer
drop zero xs = xs
drop (suc n) [] = []
drop (suc n) (x ∷ xs) = drop n xs

abbrev pub take : ℕ → Buffer → Buffer
take zero xs = []
take (suc n) [] = []
take (suc n) (x ∷ xs) = x ∷ take n xs

-- `toString("ascii", from, to)`
abbrev pub ascii : ℕ → ℕ → Buffer → Text
ascii from to xs = take (to - from) (drop from xs)

-- `buffer[i]`, on indices in range
abbrev pub byte_of : Option ℕ → ℕ
byte_of none = 0
byte_of (some x) = x

abbrev pub byte_at : ℕ → Buffer → ℕ
byte_at i xs = byte_of (get_elem? xs i)

-- `readUInt32BE(0)` and `readUInt32LE(i)`
abbrev pub read_uint32_be : Buffer → ℕ
read_uint32_be xs =
    16777216 * byte_at 0 xs + (65536 * byte_at 1 xs + (256 * byte_at 2 xs + byte_at 3 xs))

abbrev pub read_uint32_le : ℕ → Buffer → ℕ
read_uint32_le i xs =
    16777216 * byte_at (i + 3) xs
    + (65536 * byte_at (i + 2) xs + (256 * byte_at (i + 1) xs + byte_at i xs))

abbrev pub iend : Text
iend = b'I' ∷ b'E' ∷ b'N' ∷ b'D' ∷ []

-- The chunks of a PNG, `rest` being the buffer from `offset` on. A chunk takes twelve bytes and more,
-- so that as many rounds as there are bytes are enough.
unfoldable pub png_chunks : ℕ → Buffer → Bool
png_chunks zero rest = false
png_chunks (suc fuel) rest =
    let end = read_uint32_be rest + 12 in
    let after = png_chunks fuel (drop end rest) in
    if leb 12 (length rest)
    then (if ltb (length rest) end
        then false
        else if same_text (ascii 4 8 rest) iend
        then length rest == end
        else after)
    else false

abbrev pub png_signature : Buffer
png_signature = 137 ∷ 80 ∷ 78 ∷ 71 ∷ 13 ∷ 10 ∷ 26 ∷ 10 ∷ []

abbrev pub is_png : Buffer → Bool
is_png xs = leb 12 (length xs) && same_text (take 8 xs) png_signature

abbrev pub is_jpeg : Buffer → Bool
is_jpeg xs = leb 4 (length xs) && (byte_at 0 xs == 255 && byte_at 1 xs == 216)

abbrev pub is_gif : Buffer → Bool
is_gif xs =
    leb 14 (length xs)
    && (same_text (ascii 0 6 xs) (b'G' ∷ b'I' ∷ b'F' ∷ b'8' ∷ b'7' ∷ b'a' ∷ [])
        || same_text (ascii 0 6 xs) (b'G' ∷ b'I' ∷ b'F' ∷ b'8' ∷ b'9' ∷ b'a' ∷ []))

abbrev pub is_webp : Buffer → Bool
is_webp xs =
    leb 12 (length xs)
    && (same_text (ascii 0 4 xs) (b'R' ∷ b'I' ∷ b'F' ∷ b'F' ∷ [])
        && same_text (ascii 8 12 xs) (b'W' ∷ b'E' ∷ b'B' ∷ b'P' ∷ []))

-- `hasCompleteContainer`
unfoldable pub has_complete_container : Buffer → Bool
has_complete_container xs =
    if is_png xs
    then png_chunks (length xs) (drop 8 xs)
    else if is_jpeg xs
    then byte_at (length xs - 2) xs == 255 && byte_at (length xs - 1) xs == 217
    else if is_gif xs
    then byte_at (length xs - 1) xs == 59
    else if is_webp xs
    then read_uint32_le 4 xs + 8 == length xs
    else false
