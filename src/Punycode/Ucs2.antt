-- ===== src/Punycode/Ucs2.antt =====
-- `ucs2.decode` and `ucs2.encode`.
use jaseci.Prelude.{
  ℕ, ◌+◌, ◌-◌, ◌*◌, ◌/◌, ◌%◌, ◌<◌, ◌≤◌, Bool, true, false, ◌&&◌, List, [], ◌∷◌, ◌++◌, Option, none,
  some, ltb, ltb→le, within, if◌then◌else◌, Bool-cases, inl, inr, Str, get_elem?, ◌≡◌, refl, ap,
  ap₂, sym, subst, ◌∙◌, arith, All, if_true, if_false,
}
use jaseci.Unicode.{IsScalar, Scalars, units, utf16}
use jaseci.Unicode.Cases.{IsPoint, points}
use jaseci.Punycode.{ucs2_point, ucs2_from, ucs2_decode, ucs2_encode}

-- Encoding gives the UTF-16 code units of every code point.
pub ucs2_encode-utf16 : (cs : List ℕ) → All IsPoint cs → ucs2_encode cs ≡ utf16 cs
unfolding ucs2_encode
ucs2_encode-utf16 [] h = refl
ucs2_encode-utf16 (c ∷ cs) h =
    rw (ucs2_encode-utf16 cs h.1) (ap (λ (s : Str). s ++ utf16 cs) (unit c h.0))
  where
    unit :
        (c : ℕ)
        → IsPoint c
        → (if ltb 0xffff c
            then ((0xd800 + (c - 0x10000) / 1024) % 0x10000)
              ∷ ((0xdc00 + (c - 0x10000) % 1024) % 0x10000)
              ∷ []
            else (c % 0x10000) ∷ [])
          ≡ units c
    unit c h = ground arith

ucs2_from-cons :
    (c : ℕ) (s : Str)
    → let r = ucs2_point c (get_elem? s 0) in ucs2_from 0 (c ∷ s) ≡ r.0 ∷ ucs2_from r.1 s
unfolding ucs2_from
ucs2_from-cons c s = refl

ucs2_from-skip : (c : ℕ) (s : Str) → ucs2_from 1 (c ∷ s) ≡ ucs2_from 0 s
unfolding ucs2_from
ucs2_from-skip c s = refl

ucs2_from-point :
    (c : ℕ) (s : Str) (p n : ℕ)
    → ucs2_point c (get_elem? s 0) ≡ (p, n)
    → ucs2_from 0 (c ∷ s) ≡ p ∷ ucs2_from n s
ucs2_from-point c s p n e = ucs2_from-cons c s ∙ ap (λ (r : ℕ × ℕ). r.0 ∷ ucs2_from r.1 s) e

point_one : (c : ℕ) (next : Option ℕ) → IsScalar c → ucs2_point c next ≡ (c, 0)
unfolding ucs2_point
point_one c none h = refl
point_one c (some d) h = ground arith

point_pair :
    (c : ℕ)
    → 0x10000 ≤ c
    → c < 0x110000
    → ucs2_point (0xd800 + (c - 0x10000) / 1024) (some (0xdc00 + (c - 0x10000) % 1024)) ≡ (c, 1)
unfolding ucs2_point
point_pair c h k = ground arith

ucs2_from-units : (c : ℕ) (s : Str) → IsScalar c → ucs2_from 0 (units c ++ s) ≡ c ∷ ucs2_from 0 s
ucs2_from-units c s h = elim (Bool-cases (ltb c 0x10000)) [
  | inl e ↦
      subst (λ (u : Str). ucs2_from 0 (u ++ s) ≡ c ∷ ucs2_from 0 s) (sym (if_true _ _ e))
        (ucs2_from-point c s c 0 (point_one c (get_elem? s 0) h))
  | inr e ↦
      subst (λ (u : Str). ucs2_from 0 (u ++ s) ≡ c ∷ ucs2_from 0 s) (sym (if_false _ _ e))
        (ucs2_from-point _ _ c 1 (point_pair c (ltb→le c 0x10000 e) h.0)
          ∙ ap (c ∷◌) (ucs2_from-skip _ s))
]

pub ucs2_decode-utf16 : (cs : List ℕ) → Scalars cs → ucs2_decode (utf16 cs) ≡ cs
unfolding ucs2_decode ucs2_from
ucs2_decode-utf16 [] h = refl
ucs2_decode-utf16 (c ∷ cs) h =
    ucs2_from-units c (utf16 cs) h.0 ∙ ap (c ∷◌) (ucs2_decode-utf16 cs h.1)

-- `ucs2.decode` gives back the code points, none of them a surrogate, that `ucs2.encode` wrote.
pub ucs2_decode-ucs2_encode : (cs : List ℕ) → Scalars cs → ucs2_decode (ucs2_encode cs) ≡ cs
ucs2_decode-ucs2_encode cs h = rw (ucs2_encode-utf16 cs (points cs h)) (ucs2_decode-utf16 cs h)

abbrev pub IsUnit : ℕ → Type 0
IsUnit c = c < 0x10000

-- The units that `ucs2.encode` writes for one code point.
abbrev written : ℕ → Str
written cp =
    if ltb 0xffff cp
    then ((0xd800 + (cp - 0x10000) / 1024) % 0x10000)
      ∷ ((0xdc00 + (cp - 0x10000) % 1024) % 0x10000)
      ∷ []
    else (cp % 0x10000) ∷ []

written_one : (c : ℕ) → IsUnit c → written c ≡ c ∷ []
written_one c h = ground arith

abbrev is_pair : ℕ → ℕ → Bool
is_pair c d = within 0xd800 0xdbff c && within 0xdc00 0xdfff d

abbrev joined : ℕ → ℕ → ℕ
joined c d = 0x10000 + (c - 0xd800) * 1024 + (d - 0xdc00)

written_pair : (c d : ℕ) → is_pair c d ≡ true → written (joined c d) ≡ c ∷ d ∷ []
written_pair c d h = ground arith

point_joined : (c d : ℕ) → is_pair c d ≡ true → ucs2_point c (some d) ≡ (joined c d, 1)
unfolding ucs2_point
point_joined c d h = rw h

point_apart : (c d : ℕ) → is_pair c d ≡ false → ucs2_point c (some d) ≡ (c, 0)
unfolding ucs2_point
point_apart c d h = rw h

ucs2_encode-cons :
    (c : ℕ) (points : List ℕ) (u rest : Str)
    → written c ≡ u
    → ucs2_encode points ≡ rest
    → ucs2_encode (c ∷ points) ≡ u ++ rest
unfolding ucs2_encode
ucs2_encode-cons c points u rest h k = ap₂ (λ (a b : Str). a ++ b) h k

encode-from : (s : Str) → All IsUnit s → ucs2_encode (ucs2_from 0 s) ≡ s
encode-from [] h = unfold ucs2_encode ucs2_from in refl
encode-from (c ∷ []) h =
    ap ucs2_encode (ucs2_from-point c [] c 0 (unfold ucs2_point in refl))
    ∙ ucs2_encode-cons c _ (c ∷ []) [] (written_one c h.0) (encode-from [] tt)
encode-from (c ∷ d ∷ s) h = elim (Bool-cases (is_pair c d)) [
  | inl e ↦
      ap ucs2_encode (
        ucs2_from-point c (d ∷ s) (joined c d) 1 (point_joined c d e)
        ∙ ap (joined c d ∷◌) (ucs2_from-skip d s))
      ∙ ucs2_encode-cons (joined c d) _ (c ∷ d ∷ []) s (written_pair c d e) (encode-from s h.1.1)
  | inr e ↦
      ap ucs2_encode (ucs2_from-point c (d ∷ s) c 0 (point_apart c d e))
      ∙ ucs2_encode-cons c _ (c ∷ []) (d ∷ s) (written_one c h.0) (encode-from (d ∷ s) h.1)
]

-- `ucs2.encode` gives back every string of 16-bit units that `ucs2.decode` read, with its lone
-- surrogates.
pub ucs2_encode-ucs2_decode : (s : Str) → All IsUnit s → ucs2_encode (ucs2_decode s) ≡ s
unfolding ucs2_decode
ucs2_encode-ucs2_decode s h = encode-from s h
