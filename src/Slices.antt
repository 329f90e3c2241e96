-- ===== src/Slices.antt =====
-- The functions of jac/js_engine/engine/src/builtins/js/string_decoder.js that turn a slice of a
-- buffer into a string: `_decodeSlice` and what it calls. The slice `buf[start..end)` is a list; a
-- mask `x & 0x3f` is `x % 64`, a shift `x >> 6` is `x / 64`, and `|` joins fields of bits that do
-- not overlap, so it is `+`.
pub mod Utf8
pub mod Base64
use jaseci.Prelude.{
  ℕ, zero, suc, ◌+◌, ◌-◌, ◌*◌, ◌/◌, ◌%◌, Bool, true, false, ◌&&◌, ◌||◌, List, [], ◌∷◌, ◌++◌, map,
  Option, none, some, ltb, leb, ◌==◌, within, if◌then◌else◌, Str, codes, str_eq, length, get_elem?,
}
use jaseci.Unicode.{Bytes}

pub data Encoding : Type 0 where
  utf8 ascii latin1 hex base64 utf16le : Encoding

-- `toLowerCase`, on the ASCII letters: no other character lowers to a letter of the names below.
unfoldable pub to_lower : Str → Str
to_lower = map (λ c. if within b'A' b'Z' c then c + 32 else c)

-- `none` is a missing encoding.
unfoldable pub normalize_encoding : Option Str → Encoding
normalize_encoding none = utf8
normalize_encoding (some enc) =
    let e = to_lower enc in
    if str_eq enc []
    then utf8
    else if str_eq e (codes "utf8") || str_eq e (codes "utf-8")
    then utf8
    else if str_eq e (codes "ascii")
    then ascii
    else if str_eq e (codes "latin1") || str_eq e (codes "binary")
    then latin1
    else if str_eq e (codes "hex")
    then hex
    else if str_eq e (codes "base64")
    then base64
    else if str_eq e (codes "utf16le") || str_eq e (codes "ucs2") || str_eq e (codes "ucs-2")
    then utf16le
    else utf8

-- The length of the character that a lead byte begins; 1 for a byte that begins none.
unfoldable pub utf8_char_length : ℕ → ℕ
utf8_char_length lead =
    if ltb lead 0x80
    then 1
    else if lead / 32 % 8 == 6
    then 2
    else if lead / 16 % 16 == 14
    then 3
    else if lead / 8 % 32 == 30
    then 4
    else 1

-- `buf[i] & 0xff`; past the end that is `undefined & 0xff`, which is 0.
abbrev pub byte_at : Bytes → ℕ → ℕ
byte_at buf i = elim (get_elem? buf i) [ none ↦ 0 | some b ↦ b % 256 ]

-- One round of the loop of `_decodeUtf8`, on what is left of the slice: the code units added, and
-- the bytes taken. The first surrogate is 0xd800 + ((cp - 0x10000) >> 10), and 0x10000 >> 10 is 64,
-- so that the line holds where the difference is negative too.
unfoldable pub utf8_round : Bytes → Str × ℕ
utf8_round buf =
    let b0 = byte_at buf 0 in
    let b1 = byte_at buf 1 % 64 in
    let b2 = byte_at buf 2 % 64 in
    let b3 = byte_at buf 3 % 64 in
    let cp = b0 % 8 * 262144 + b1 * 4096 + b2 * 64 + b3 in
    if ltb b0 0x80
    then (b0 ∷ [], 1)
    else if b0 / 32 == 6 && ltb 1 (length buf)
    then ((b0 % 32 * 64 + b1) ∷ [], 2)
    else if b0 / 16 == 14 && ltb 2 (length buf)
    then ((b0 % 16 * 4096 + b1 * 64 + b2) ∷ [], 3)
    else if b0 / 8 == 30 && ltb 3 (length buf)
    then ((0xd800 - 64 + cp / 1024) ∷ (0xdc00 + cp % 1024) ∷ [], 4)
    else (0xfffd ∷ [], 1)

-- The loop, on what is left of the slice, of which `skip` bytes are taken already.
unfoldable pub utf8_from : ℕ → Bytes → Str
utf8_from skip [] = []
utf8_from (suc skip) (_ ∷ buf) = utf8_from skip buf
utf8_from zero (b ∷ buf) =
    let (out, taken) = utf8_round (b ∷ buf) in out ++ utf8_from (taken - 1) buf

unfoldable pub decode_utf8 : Bytes → Str
unfolding utf8_from utf8_round
decode_utf8 = utf8_from 0

unfoldable pub decode_utf16le : Bytes → Str
decode_utf16le (b0 ∷ b1 ∷ buf) = (b0 % 256 + b1 % 256 * 256) ∷ decode_utf16le buf
decode_utf16le _ = []

-- `chars[i]`; the index is always below 64.
abbrev pub alphabet : Str
alphabet = codes "ABCDEFGHIJKLMNOPQRSTUVWXYZabcdefghijklmnopqrstuvwxyz0123456789+/"

unfoldable pub char_of : ℕ → ℕ
char_of i = elim (get_elem? alphabet i) [ none ↦ 0 | some c ↦ c ]

unfoldable pub encode_base64 : Bytes → Str
unfolding char_of
encode_base64 [] = []
encode_base64 (x0 ∷ x1 ∷ x2 ∷ buf) =
    let b0 = x0 % 256 in
    let b1 = x1 % 256 in
    let b2 = x2 % 256 in
    char_of (b0 / 4)
    ∷ char_of (b0 % 4 * 16 + b1 / 16)
    ∷ char_of (b1 % 16 * 4 + b2 / 64)
    ∷ char_of (b2 % 64)
    ∷ encode_base64 buf
encode_base64 (x0 ∷ x1 ∷ []) =
    let b0 = x0 % 256 in
    let b1 = x1 % 256 in
    char_of (b0 / 4) ∷ char_of (b0 % 4 * 16 + b1 / 16) ∷ char_of (b1 % 16 * 4) ∷ b'=' ∷ []
encode_base64 (x0 ∷ []) =
    let b0 = x0 % 256 in char_of (b0 / 4) ∷ char_of (b0 % 4 * 16) ∷ b'=' ∷ b'=' ∷ []

unfoldable pub hex_digit : ℕ → ℕ
hex_digit n = if ltb n 10 then b'0' + n else b'a' + (n - 10)

unfoldable pub decode_hex : Bytes → Str
unfolding hex_digit
decode_hex [] = []
decode_hex (x ∷ buf) = let b = x % 256 in hex_digit (b / 16) ∷ hex_digit (b % 16) ∷ decode_hex buf

unfoldable pub decode_slice : Encoding → Bytes → Str
decode_slice utf8 buf = decode_utf8 buf
decode_slice ascii buf = map (λ b. b % 128) buf
decode_slice latin1 buf = map (λ b. b % 256) buf
decode_slice hex buf = decode_hex buf
decode_slice base64 buf = encode_base64 buf
decode_slice utf16le buf = decode_utf16le buf
