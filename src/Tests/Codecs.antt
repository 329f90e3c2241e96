-- ===== src/Tests/Codecs.antt =====
-- Tests of text_codec.js and string_decoder.js.
use jaseci.Prelude.{
  ◌≡◌, refl, ap, List, [], ◌∷◌, ◌++◌, Option, none, some, codes, Str, true, false, arith, ℕ, ◌<◌,
  inl, inr,
}
use jaseci.Unicode.{Bytes, utf16, Scalars}
use jaseci.TextCodec.{utf8_encode_string, utf8_decode_bytes}
use jaseci.TextCodec.Encode.{utf8_decode_bytes-utf8_encode_string}
use jaseci.Slices.{normalize_encoding, encode_base64, decode_utf8}
use jaseci.StringDecoder.{new, masked}
use jaseci.StringDecoder.Session.{decode_chunks, decode_chunks-utf8}
use jaseci.StringDecoder.Groups.{decode_chunks-base64}
use jaseci.StringDecoder.Pairs.{decode_chunks-utf16le, text_of}

-- The euro sign, cut after its first byte.
abbrev cut : List Bytes
cut = (0xe2 ∷ []) ∷ (0x82 ∷ 0xac ∷ []) ∷ []

decode_chunks-cut : decode_chunks (new none) cut ≡ 0x20ac ∷ []
unfolding decode_chunks new jaseci.StringDecoder.write normalize_encoding
    jaseci.StringDecoder.utf8_incomplete_end jaseci.StringDecoder.back_loop
    jaseci.Slices.utf8_char_length decode_utf8 jaseci.StringDecoder.end
decode_chunks-cut = refl

-- A lone surrogate is written in three bytes, and the fatal decoder takes them.
surrogate_bytes : utf8_encode_string (0xd800 ∷ []) ≡ 0xed ∷ 0xa0 ∷ 0x80 ∷ []
unfolding utf8_encode_string jaseci.TextCodec.encode_from
surrogate_bytes = refl

surrogate_back : utf8_decode_bytes true (0xed ∷ 0xa0 ∷ 0x80 ∷ []) ≡ some (0xd800 ∷ [])
unfolding utf8_decode_bytes jaseci.TextCodec.decode_from jaseci.TextCodec.round
surrogate_back = refl

base64_test : encode_base64 (codes "Man" ++ codes "M") ≡ codes "TWFuTQ=="
unfolding encode_base64
base64_test = refl

decode_chunks-utf8_example : decode_chunks (new none) cut ≡ utf16 (0x20ac ∷ [])
unfolding normalize_encoding mathlib.Core.List.flatten
decode_chunks-utf8_example = decode_chunks-utf8 none (0x20ac ∷ []) cut refl (omega arith, tt) refl

decode_chunks-base64_example :
    decode_chunks (new (some (codes "base64"))) ((1 ∷ []) ∷ (2 ∷ 3 ∷ 4 ∷ []) ∷ [])
    ≡ encode_base64 (masked (1 ∷ 2 ∷ 3 ∷ 4 ∷ []))
unfolding normalize_encoding jaseci.Prelude.str_eq jaseci.Slices.to_lower mathlib.Core.List.flatten
decode_chunks-base64_example =
    decode_chunks-base64 (some (codes "base64")) ((1 ∷ []) ∷ (2 ∷ 3 ∷ 4 ∷ []) ∷ []) refl

decode_chunks-utf16le_example :
    decode_chunks (new (some (codes "utf16le"))) ((0x41 ∷ []) ∷ (0 ∷ 0x42 ∷ []) ∷ [])
    ≡ text_of (masked (0x41 ∷ 0 ∷ 0x42 ∷ []))
unfolding normalize_encoding jaseci.Prelude.str_eq jaseci.Slices.to_lower mathlib.Core.List.flatten
decode_chunks-utf16le_example =
    decode_chunks-utf16le (some (codes "utf16le")) ((0x41 ∷ []) ∷ (0 ∷ 0x42 ∷ []) ∷ []) refl

-- A letter, the euro sign and a code point that needs a surrogate pair.
abbrev sample : List ℕ
sample = 0x61 ∷ 0x20ac ∷ 0x1f600 ∷ []

sample-Scalars : Scalars sample
sample-Scalars = (
  (omega arith, inl (omega arith)),
  ((omega arith, inl (omega arith)), ((omega arith, inr (omega arith)), tt)),
)

utf8_decode_bytes-utf8_encode_string_example :
    utf8_decode_bytes true (utf8_encode_string (utf16 sample)) ≡ some (utf16 sample)
utf8_decode_bytes-utf8_encode_string_example =
    utf8_decode_bytes-utf8_encode_string true sample sample-Scalars
