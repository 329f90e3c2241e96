-- ===== src/TextCodec.antt =====
-- TextEncoder and TextDecoder of jac/js_engine/engine/src/builtins/js/text_codec.js, without the
-- native fast paths. A byte or code unit is a number, a mask `x & 0x3f` is `x % 64`, a shift
-- `x >> 6` is `x / 64`, and `|` joins fields of bits that do not overlap, so it is `+`.
pub mod Decode
pub mod Encode
pub mod Classes
use jaseci.Prelude.{
  ℕ, zero, suc, ◌+◌, ◌-◌, ◌*◌, ◌/◌, ◌%◌, Bool, true, false, not, ◌&&◌, ◌||◌, List, [], ◌∷◌, ◌++◌,
  Option, none, some, ltb, leb, ◌==◌, within, if◌then◌else◌, Str, codes, str_eq, length, get_elem?,
}
use mathlib.Core.Option
use jaseci.Unicode.{Bytes}

-- One round of the loop of `_utf8EncodeString`: the code point read at the front of the string, and
-- the number of code units taken. `none` is a read past the end, where the guard fails.
unfoldable pub read_point : ℕ → Option ℕ → ℕ × ℕ
read_point c none = (c, 1)
read_point c (some c2) =
    if within 0xd800 0xdbff c && within 0xdc00 0xdfff c2
    then (0x10000 + (c - 0xd800) * 1024 + (c2 - 0xdc00), 2)
    else (c, 1)

-- The bytes pushed for a code point.
unfoldable pub push_point : ℕ → Bytes
push_point c =
    if ltb c 0x80
    then c ∷ []
    else if ltb c 0x800
    then (0xc0 + c / 64) ∷ (0x80 + c % 64) ∷ []
    else if ltb c 0x10000
    then (0xe0 + c / 4096) ∷ (0x80 + c / 64 % 64) ∷ (0x80 + c % 64) ∷ []
    else (0xf0 + c / 262144) ∷ (0x80 + c / 4096 % 64) ∷ (0x80 + c / 64 % 64) ∷ (0x80 + c % 64) ∷ []

-- The loop of `_utf8EncodeString`, on what is left of the string; `skip` code units of it are taken
-- already.
unfoldable pub encode_from : ℕ → Str → Bytes
unfolding read_point push_point
encode_from skip [] = []
encode_from (suc skip) (_ ∷ s) = encode_from skip s
encode_from zero (c ∷ s) =
    let (point, taken) = read_point c (get_elem? s 0) in
    push_point point ++ encode_from (taken - 1) s

unfoldable pub utf8_encode_string : Str → Bytes
utf8_encode_string = encode_from 0

-- `buf[i] & 0xff`; past the end that is `undefined & 0xff`, which is 0.
abbrev pub byte_at : Bytes → ℕ → ℕ
byte_at buf i = elim (get_elem? buf i) [ none ↦ 0 | some b ↦ b % 256 ]

-- What a round of the loop of `_utf8DecodeBytes` does: it emits code units and takes bytes, or it
-- is at the end and leaves the loop, or the input is invalid at the first byte.
pub data Round : Type 0 where
  emit : Str → ℕ → Round
  truncated : Round
  invalid : Round

unfoldable pub round : Bytes → Round
round buf =
    let b0 = byte_at buf 0 in
    let b1 = byte_at buf 1 in
    let b2 = byte_at buf 2 in
    let b3 = byte_at buf 3 in
    let cp = b0 % 8 * 262144 + b1 % 64 * 4096 + b2 % 64 * 64 + b3 % 64 in
    if ltb b0 0x80
    then emit (b0 ∷ []) 1
    else if b0 / 32 == 6
    then (if leb (length buf) 1
        then truncated
        else if not (b1 / 64 == 2) || b0 / 2 == 96
        then invalid
        else emit ((b0 % 32 * 64 + b1 % 64) ∷ []) 2)
    else if b0 / 16 == 14
    then (if leb (length buf) 2
        then truncated
        else if not (b1 / 64 == 2) || not (b2 / 64 == 2) || (b0 == 0xe0 && ltb b1 0xa0)
        then invalid
        else emit ((b0 % 16 * 4096 + b1 % 64 * 64 + b2 % 64) ∷ []) 3)
    else if b0 / 8 == 30
    then (if leb (length buf) 3
        then truncated
        else if not (b1 / 64 == 2)
            || not (b2 / 64 == 2)
            || not (b3 / 64 == 2)
            || ltb 0xf4 b0
            || (b0 == 0xf0 && ltb b1 0x90)
            || (b0 == 0xf4 && ltb 0x8f b1)
        then invalid
        else emit ((0xd800 + (cp - 0x10000) / 1024) ∷ (0xdc00 + (cp - 0x10000) % 1024) ∷ []) 4)
    else invalid

-- The loop, on what is left of the buffer, of which `skip` bytes are taken already. `none` is the
-- TypeError that `fatal` asks for.
unfoldable pub decode_from : Bool → ℕ → Bytes → Option Str
decode_from fatal skip [] = some []
decode_from fatal (suc skip) (_ ∷ buf) = decode_from fatal skip buf
decode_from fatal zero (b ∷ buf) = elim (round (b ∷ buf)) [
  | emit out taken ↦ Option.map (λ rest. out ++ rest) (decode_from fatal (taken - 1) buf)
  | truncated ↦ if fatal then none else some (0xfffd ∷ [])
  | invalid ↦ if fatal then none else Option.map (λ rest. 0xfffd ∷ rest) (decode_from fatal 0 buf)
]

unfoldable pub utf8_decode_bytes : Bool → Bytes → Option Str
utf8_decode_bytes fatal = decode_from fatal 0
