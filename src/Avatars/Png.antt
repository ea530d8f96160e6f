-- ===== src/Avatars/Png.antt =====
-- `hasCompleteContainer` of Chess-Backend/src/middleware/upload.js on the PNGs that an encoder writes.
use end_to_end_kubernetes_ch.Base.{
  ℕ, zero, suc, ◌+◌, ◌-◌, ◌/◌, ◌%◌, ◌≤◌, ◌<◌, ◌≡◌, ◌∙◌, refl, inl, inr, Bool, true, false, List, [],
  ◌∷◌, ◌++◌, leb, arith, length, Bool-cases,
}
use end_to_end_kubernetes_ch.Avatars.{same_text}
use end_to_end_kubernetes_ch.Avatars.Stores.{Buffer}
use end_to_end_kubernetes_ch.Avatars.Container.{drop, read_uint32_be, iend, png_chunks}

-- A chunk of a PNG: its type, its data and its checksum.
pub record Chunk : Type 0 where
  pub type0 : ℕ
  pub type1 : ℕ
  pub type2 : ℕ
  pub type3 : ℕ
  pub content : Buffer
  pub crc0 : ℕ
  pub crc1 : ℕ
  pub crc2 : ℕ
  pub crc3 : ℕ

abbrev pub type_of : Chunk → Buffer
type_of k = k.type0 ∷ k.type1 ∷ k.type2 ∷ k.type3 ∷ []

abbrev with_crc : Chunk → Buffer → Buffer
with_crc k rest = k.crc0 ∷ k.crc1 ∷ k.crc2 ∷ k.crc3 ∷ rest

-- A chunk before the bytes that follow it: the length of the data in four bytes, the type, the data and
-- the checksum.
abbrev pub encode_chunk : Chunk → Buffer → Buffer
encode_chunk k rest =
    let n = length k.content in
    n / 16777216 % 256
    ∷ n / 65536 % 256
    ∷ n / 256 % 256
    ∷ n % 256
    ∷ k.type0
    ∷ k.type1
    ∷ k.type2
    ∷ k.type3
    ∷ (k.content ++ with_crc k rest)

abbrev pub encode_chunks : List Chunk → Buffer → Buffer
encode_chunks [] rest = rest
encode_chunks (k ∷ ks) rest = encode_chunk k (encode_chunks ks rest)

-- A chunk whose length has four bytes.
abbrev pub IsChunk : Chunk → Type 0
IsChunk k = length k.content < 4294967296

-- A chunk that is not the last.
abbrev pub IsInner : Chunk → Type 0
IsInner k = IsChunk k × (same_text (type_of k) iend ≡ false)

abbrev is_nil : Buffer → Bool
is_nil [] = true
is_nil (x ∷ xs) = false

length-drop : (n : ℕ) (xs : Buffer) → length (drop n xs) ≡ length xs - n
length-drop zero xs = omega arith
length-drop (suc n) [] = omega arith
length-drop (suc n) (x ∷ xs) = length-drop n xs ∙ omega arith

-- As many rounds as there are bytes are enough: one more changes nothing.
png_chunks-enough :
    (fuel : ℕ) (rest : Buffer)
    → length rest ≤ fuel
    → png_chunks (suc fuel) rest ≡ png_chunks fuel rest
unfolding png_chunks
png_chunks-enough zero rest h =
    let short : leb 12 (length rest) ≡ false = ground (arith, h) in rw short refl
png_chunks-enough (suc fuel) rest h = elim (Bool-cases (leb 12 (length rest))) [
  | inr e ↦ rw (png_chunks, e) refl
  | inl e ↦
      rw
        (
          png_chunks,
          e,
          png_chunks-enough fuel (drop (read_uint32_be rest + 12) rest)
              (omega (arith, h, length-drop (read_uint32_be rest + 12) rest)),
        )
        refl
]
