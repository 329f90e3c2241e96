-- ===== src/TextCodec/Decode.antt =====
-- `_utf8DecodeBytes` on well-formed input.
use jaseci.Prelude.{
  ℕ, suc, ◌+◌, ◌-◌, ◌/◌, ◌%◌, ◌<◌, ◌≤◌, Bool, List, [], ◌∷◌, ◌++◌, some, Str, length, ◌≡◌, refl,
  arith, All, ◌≢◌, ◌∙◌,
}
use mathlib.Core.Option
use jaseci.Unicode.{Bytes, units, bytes, utf8, utf16}
use jaseci.Unicode.Cases.{bytes_cases, IsPoint, bytes-ne-nil}
use jaseci.TextCodec.{emit, round, decode_from, utf8_decode_bytes}

module _ (c : ℕ) (rest : Bytes) where
  round-one : c < 0x80 → round (c ∷ rest) ≡ emit (c ∷ []) 1
  unfolding round
  round-one h = ground arith

  round-two :
      0x80 ≤ c → c < 0x800 → round ((0xc0 + c / 64) ∷ (0x80 + c % 64) ∷ rest) ≡ emit (c ∷ []) 2
  unfolding round
  round-two h k = ground arith

  round-three :
      0x800 ≤ c
      → c < 0x10000
      → round ((0xe0 + c / 4096) ∷ (0x80 + c / 64 % 64) ∷ (0x80 + c % 64) ∷ rest) ≡ emit (c ∷ []) 3
  unfolding round
  round-three h k = ground arith

  round-four :
      0x10000 ≤ c
      → c < 0x110000
      → round (
          (0xf0 + c / 262144)
          ∷ (0x80 + c / 4096 % 64)
          ∷ (0x80 + c / 64 % 64)
          ∷ (0x80 + c % 64)
          ∷ rest)
        ≡ emit ((0xd800 + (c - 0x10000) / 1024) ∷ (0xdc00 + (c - 0x10000) % 1024) ∷ []) 4
  unfolding round
  round-four h k = ground arith

  -- A round reads the bytes of one code point and emits its units.
  round-bytes : IsPoint c → round (bytes c ++ rest) ≡ emit (units c) (length (bytes c))
  round-bytes h =
      bytes_cases (λ b u. round (b ++ rest) ≡ emit u (length b)) c round-one round-two round-three
        (λ k. round-four k h)

decode_from-skip :
    (fatal : Bool) (taken rest : Bytes)
    → decode_from fatal (length taken) (taken ++ rest) ≡ decode_from fatal 0 rest
unfolding decode_from
decode_from-skip fatal [] rest = refl
decode_from-skip fatal (b ∷ taken) rest = decode_from-skip fatal taken rest

decode_from-round :
    (fatal : Bool) (b : ℕ) (buf : Bytes) (out : Str) (taken : ℕ)
    → round (b ∷ buf) ≡ emit out taken
    → decode_from fatal 0 (b ∷ buf)
      ≡ Option.map (λ more. out ++ more) (decode_from fatal (taken - 1) buf)
unfolding decode_from
decode_from-round fatal b buf out taken r = rw (r, decode_from)

decode_from-emit :
    (fatal : Bool) (taken rest : Bytes) (out : Str)
    → taken ≢ []
    → round (taken ++ rest) ≡ emit out (length taken)
    → decode_from fatal 0 (taken ++ rest)
      ≡ Option.map (λ more. out ++ more) (decode_from fatal 0 rest)
decode_from-emit fatal [] rest out h r = absurd (h refl)
decode_from-emit fatal (b ∷ taken) rest out h r =
    let e : suc (length taken) - 1 ≡ length taken = omega arith in
    decode_from-round fatal b (taken ++ rest) out (suc (length taken)) r ∙ rw (e, decode_from-skip)

-- The decoder, fatal or not, decodes the UTF-8 bytes of code points below 0x110000 to their UTF-16
-- text.
pub utf8_decode_bytes-utf8 :
    (fatal : Bool) (cs : List ℕ)
    → All IsPoint cs
    → utf8_decode_bytes fatal (utf8 cs) ≡ some (utf16 cs)
unfolding utf8_decode_bytes decode_from
utf8_decode_bytes-utf8 fatal [] h = refl
utf8_decode_bytes-utf8 fatal (c ∷ cs) h =
    decode_from-emit fatal (bytes c) (utf8 cs) (units c) (bytes-ne-nil c)
      (round-bytes c (utf8 cs) h.0)
    ∙ rw (utf8_decode_bytes-utf8 fatal cs h.1)
