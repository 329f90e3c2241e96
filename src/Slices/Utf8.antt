-- ===== src/Slices/Utf8.antt =====
-- `_decodeUtf8` on well-formed input.
use jaseci.Prelude.{
  ℕ, suc, ◌+◌, ◌-◌, ◌/◌, ◌%◌, ◌<◌, ◌≤◌, List, [], ◌∷◌, ◌++◌, Str, length, ◌≡◌, ◌≢◌, refl, ap, ◌∙◌,
  arith, All,
}
use jaseci.Unicode.{Bytes, units, bytes, utf16}
use jaseci.Unicode
use jaseci.Unicode.Cases.{bytes_cases, IsPoint, bytes-ne-nil}
use jaseci.Slices.{utf8_round, utf8_from, decode_utf8}

module _ (c : ℕ) (rest : Bytes) where
  round-one : c < 0x80 → utf8_round (c ∷ rest) ≡ (c ∷ [], 1)
  unfolding utf8_round
  round-one h = ground arith

  round-two :
      0x80 ≤ c → c < 0x800 → utf8_round ((0xc0 + c / 64) ∷ (0x80 + c % 64) ∷ rest) ≡ (c ∷ [], 2)
  unfolding utf8_round
  round-two h k = ground arith

  round-three :
      0x800 ≤ c
      → c < 0x10000
      → utf8_round ((0xe0 + c / 4096) ∷ (0x80 + c / 64 % 64) ∷ (0x80 + c % 64) ∷ rest) ≡ (c ∷ [], 3)
  unfolding utf8_round
  round-three h k = ground arith

  round-four :
      0x10000 ≤ c
      → c < 0x110000
      → utf8_round (
          (0xf0 + c / 262144)
          ∷ (0x80 + c / 4096 % 64)
          ∷ (0x80 + c / 64 % 64)
          ∷ (0x80 + c % 64)
          ∷ rest)
        ≡ ((0xd800 + (c - 0x10000) / 1024) ∷ (0xdc00 + (c - 0x10000) % 1024) ∷ [], 4)
  unfolding utf8_round
  round-four h k = ground arith

  -- A round reads the bytes of one code point and emits its units.
  round-bytes : IsPoint c → utf8_round (bytes c ++ rest) ≡ (units c, length (bytes c))
  round-bytes h =
      bytes_cases (λ b u. utf8_round (b ++ rest) ≡ (u, length b)) c round-one round-two round-three
        (λ k. round-four k h)

utf8_from-skip : (taken rest : Bytes) → utf8_from (length taken) (taken ++ rest) ≡ utf8_from 0 rest
unfolding utf8_from
utf8_from-skip [] rest = refl
utf8_from-skip (b ∷ taken) rest = utf8_from-skip taken rest

utf8_from-cons :
    (b : ℕ) (buf : Bytes)
    → let r = utf8_round (b ∷ buf) in utf8_from 0 (b ∷ buf) ≡ r.0 ++ utf8_from (r.1 - 1) buf
unfolding utf8_from
utf8_from-cons b buf = refl

utf8_from-taken :
    (taken rest : Bytes) (out : Str)
    → taken ≢ []
    → utf8_round (taken ++ rest) ≡ (out, length taken)
    → utf8_from 0 (taken ++ rest) ≡ out ++ utf8_from 0 rest
utf8_from-taken [] rest out h r = absurd (h refl)
utf8_from-taken (b ∷ taken) rest out h r =
    let e : suc (length taken) - 1 ≡ length taken = omega arith in
    utf8_from-cons b (taken ++ rest)
    ∙ ap (λ (s : Str × ℕ). s.0 ++ utf8_from (s.1 - 1) (taken ++ rest)) r
    ∙ rw (e, utf8_from-skip)

-- The bytes of a code point in front of any others.
pub decode_utf8-bytes :
    (c : ℕ) (rest : Bytes) → IsPoint c → decode_utf8 (bytes c ++ rest) ≡ units c ++ decode_utf8 rest
unfolding decode_utf8
decode_utf8-bytes c rest h =
    utf8_from-taken (bytes c) rest (units c) (bytes-ne-nil c) (round-bytes c rest h)

-- `_decodeUtf8` decodes the UTF-8 bytes of code points below 0x110000 to their UTF-16 text.
pub decode_utf8-utf8 : (cs : List ℕ) → All IsPoint cs → decode_utf8 (Unicode.utf8 cs) ≡ utf16 cs
decode_utf8-utf8 [] h = unfold decode_utf8 in refl
decode_utf8-utf8 (c ∷ cs) h =
    decode_utf8-bytes c (Unicode.utf8 cs) h.0
    ∙ ap (λ (s : Str). units c ++ s) (decode_utf8-utf8 cs h.1)
