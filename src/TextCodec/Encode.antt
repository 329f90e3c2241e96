-- ===== src/TextCodec/Encode.antt =====
-- `_utf8EncodeString` on a well-formed string, and back.
use jaseci.Prelude.{
  ℕ, ◌+◌, ◌-◌, ◌/◌, ◌%◌, ◌<◌, ◌≤◌, Bool, List, [], ◌∷◌, ◌++◌, Option, none, some, ltb, ltb→le,
  Bool-cases, inl, inr, Str, get_elem?, ◌≡◌, refl, ap, sym, subst, if_true, if_false, ◌∙◌, arith,
}
use jaseci.Unicode.{Bytes, IsScalar, Scalars, units, bytes, utf8, utf16}
use jaseci.Unicode.Cases.{points}
use jaseci.TextCodec.{read_point, push_point, encode_from, utf8_encode_string, utf8_decode_bytes}
use jaseci.TextCodec.Decode.{utf8_decode_bytes-utf8}

push_point-bytes : (c : ℕ) → push_point c ≡ bytes c
unfolding push_point
push_point-bytes c = refl

-- A scalar value of one code unit is read as it is, whatever follows it.
read_point-one : (c : ℕ) (next : Option ℕ) → IsScalar c → read_point c next ≡ (c, 1)
unfolding read_point
read_point-one c none h = refl
read_point-one c (some d) h = ground arith

-- A surrogate pair is read as the code point that it stands for.
read_point-pair :
    (c : ℕ)
    → 0x10000 ≤ c
    → c < 0x110000
    → read_point (0xd800 + (c - 0x10000) / 1024) (some (0xdc00 + (c - 0x10000) % 1024)) ≡ (c, 2)
unfolding read_point
read_point-pair c h k = ground arith

encode_from-cons :
    (c : ℕ) (s : Str)
    → let r = read_point c (get_elem? s 0) in
      encode_from 0 (c ∷ s) ≡ push_point r.0 ++ encode_from (r.1 - 1) s
unfolding encode_from
encode_from-cons c s = refl

encode_from-read :
    (c : ℕ) (s : Str) (p n : ℕ)
    → read_point c (get_elem? s 0) ≡ (p, n)
    → encode_from 0 (c ∷ s) ≡ bytes p ++ encode_from (n - 1) s
encode_from-read c s p n e =
    encode_from-cons c s
    ∙ ap (λ (r : ℕ × ℕ). push_point r.0 ++ encode_from (r.1 - 1) s) e
    ∙ ap (λ (b : Bytes). b ++ encode_from (n - 1) s) (push_point-bytes p)

encode_from-skip : (c : ℕ) (s : Str) → encode_from 1 (c ∷ s) ≡ encode_from 0 s
unfolding encode_from
encode_from-skip c s = refl

encode_from-units :
    (c : ℕ) (s : Str) → IsScalar c → encode_from 0 (units c ++ s) ≡ bytes c ++ encode_from 0 s
encode_from-units c s h = elim (Bool-cases (ltb c 0x10000)) [
  | inl e ↦
      subst (λ (u : Str). encode_from 0 (u ++ s) ≡ bytes c ++ encode_from 0 s) (sym (if_true _ _ e))
        (encode_from-read c s c 1 (read_point-one c (get_elem? s 0) h))
  | inr e ↦
      subst (λ (u : Str). encode_from 0 (u ++ s) ≡ bytes c ++ encode_from 0 s)
        (sym (if_false _ _ e))
        (encode_from-read _ _ c 2 (read_point-pair c (ltb→le c 0x10000 e) h.0)
          ∙ ap (λ (b : Bytes). bytes c ++ b) (encode_from-skip _ s))
]

-- The encoder writes the UTF-8 bytes of the code points of a string without lone surrogates.
pub utf8_encode_string-utf16 : (cs : List ℕ) → Scalars cs → utf8_encode_string (utf16 cs) ≡ utf8 cs
unfolding utf8_encode_string encode_from
utf8_encode_string-utf16 [] h = refl
utf8_encode_string-utf16 (c ∷ cs) h =
    encode_from-units c (utf16 cs) h.0
    ∙ ap (λ rest. bytes c ++ rest) (utf8_encode_string-utf16 cs h.1)

-- The decoder, fatal or not, gives back a string without lone surrogates from the bytes that the
-- encoder wrote for it.
pub utf8_decode_bytes-utf8_encode_string :
    (fatal : Bool) (cs : List ℕ)
    → Scalars cs
    → utf8_decode_bytes fatal (utf8_encode_string (utf16 cs)) ≡ some (utf16 cs)
utf8_decode_bytes-utf8_encode_string fatal cs h =
    rw (utf8_encode_string-utf16 cs h) (utf8_decode_bytes-utf8 fatal cs (points cs h))
