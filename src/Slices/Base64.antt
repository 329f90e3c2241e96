-- ===== src/Slices/Base64.antt =====
-- `_encodeBase64`: whole groups may be encoded apart, and the bytes can be read back.
use jaseci.Prelude.{
  ℕ, zero, suc, ◌+◌, ◌-◌, ◌*◌, ◌/◌, ◌%◌, ◌<◌, Bool, true, false, ◌&&◌, [], ◌∷◌, ◌++◌, ◌==◌, ==→eq,
  if◌then◌else◌, Str, length, index_of, ◌≡◌, refl, ap, ap₂, arith, All,
}
use jaseci.Unicode.{Bytes}
use jaseci.Slices.{alphabet, char_of, encode_base64}

-- Bytes that are a multiple of three in number are encoded independently of those that follow.
pub encode_base64-append :
    (groups : ℕ) (a b : Bytes)
    → length a ≡ groups * 3
    → encode_base64 (a ++ b) ≡ encode_base64 a ++ encode_base64 b
unfolding encode_base64
encode_base64-append zero [] b h = refl
encode_base64-append zero (_ ∷ _) b h = absurd (omega arith)
encode_base64-append (suc n) [] b h = absurd (omega arith)
encode_base64-append (suc n) (_ ∷ []) b h = absurd (omega arith)
encode_base64-append (suc n) (_ ∷ _ ∷ []) b h = absurd (omega arith)
encode_base64-append (suc n) (x ∷ y ∷ z ∷ a) b h = rw (encode_base64-append n a b (omega arith))

-- The reference reader: the value of a character is its place in the alphabet.
pub value_of : ℕ → ℕ
value_of c = index_of alphabet c - 1

pub read_base64 : Str → Bytes
unfolding value_of
read_base64 (c0 ∷ c1 ∷ c2 ∷ c3 ∷ s) =
    let b0 = value_of c0 * 4 + value_of c1 / 16 in
    let b1 = value_of c1 % 16 * 16 + value_of c2 / 4 in
    let b2 = value_of c2 % 4 * 64 + value_of c3 in
    let rest = read_base64 s in
    if c2 == b'=' then b0 ∷ [] else if c3 == b'=' then b0 ∷ b1 ∷ [] else b0 ∷ b1 ∷ b2 ∷ rest
read_base64 _ = []

-- A test passed by every number up to `n`, evaluated.
passes : (ℕ → Bool) → ℕ → Bool
passes test zero = true
passes test (suc n) = passes test n && test n

passes-at : (test : ℕ → Bool) (n i : ℕ) → i < n → passes test n ≡ true → test i ≡ true
unfolding passes
passes-at test zero i below h = absurd (omega arith)
passes-at test (suc n) i below h = ground (arith, passes-at test n i)

value_table : passes (λ i. value_of (char_of i) == i) 64 ≡ true
unfolding passes value_of char_of index_of
value_table = refl

pad_table : passes (λ i. if char_of i == b'=' then false else true) 64 ≡ true
unfolding passes char_of
pad_table = refl

value_of-char_of : (i : ℕ) → i < 64 → value_of (char_of i) ≡ i
value_of-char_of i h = ==→eq _ _ (passes-at _ 64 i h value_table)

char_of-pad : (i : ℕ) → i < 64 → (char_of i == b'=') ≡ false
char_of-pad i h = ground (arith, passes-at _ 64 i h pad_table)

-- The three bytes of a group, from the values of its characters.
module _ (x y z : ℕ) (hx : x < 256) (hy : y < 256) (hz : z < 256) where
  first_byte : (x % 256 / 4) * 4 + (x % 256 % 4 * 16 + y % 256 / 16) / 16 ≡ x
  first_byte = omega arith

  second_byte :
      (x % 256 % 4 * 16 + y % 256 / 16) % 16 * 16 + (y % 256 % 16 * 4 + z % 256 / 64) / 4 ≡ y
  second_byte = omega arith

  third_byte : (y % 256 % 16 * 4 + z % 256 / 64) % 4 * 64 + z % 256 % 64 ≡ z
  third_byte = omega arith

-- The base64 reader gives back the bytes, each below 256, that `_encodeBase64` wrote.
pub read_base64-encode_base64 :
    (buf : Bytes) → All (λ b. b < 256) buf → read_base64 (encode_base64 buf) ≡ buf
unfolding read_base64 encode_base64
read_base64-encode_base64 [] h = refl
read_base64-encode_base64 (x ∷ []) h =
    rw
      (
        value_of-char_of (x % 256 / 4) (omega arith),
        value_of-char_of (x % 256 % 4 * 16) (omega arith),
      )
      (ap (λ b. b ∷ []) (omega arith))
read_base64-encode_base64 (x ∷ y ∷ []) h =
    rw
      (
        char_of-pad (y % 256 % 16 * 4) (omega arith),
        value_of-char_of (x % 256 / 4) (omega arith),
        value_of-char_of (x % 256 % 4 * 16 + y % 256 / 16) (omega arith),
        value_of-char_of (y % 256 % 16 * 4) (omega arith),
      )
      (ap₂ (λ a b. a ∷ b ∷ []) (omega arith) (omega arith))
read_base64-encode_base64 (x ∷ y ∷ z ∷ buf) h =
    rw
      (
        char_of-pad (y % 256 % 16 * 4 + z % 256 / 64) (omega arith),
        char_of-pad (z % 256 % 64) (omega arith),
        value_of-char_of (x % 256 / 4) (omega arith),
        value_of-char_of (x % 256 % 4 * 16 + y % 256 / 16) (omega arith),
        value_of-char_of (y % 256 % 16 * 4 + z % 256 / 64) (omega arith),
        value_of-char_of (z % 256 % 64) (omega arith),
        read_base64-encode_base64 buf h.1.1.1,
      )
      (ap₂ ◌∷◌ (first_byte x y z h.0 h.1.0 h.1.1.0) (
        ap₂ ◌∷◌ (second_byte x y z h.0 h.1.0 h.1.1.0)
          (ap (λ b. b ∷ buf) (third_byte x y z h.0 h.1.0 h.1.1.0))))
