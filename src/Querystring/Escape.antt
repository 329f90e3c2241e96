-- ===== src/Querystring/Escape.antt =====
-- What `escape` of querystring.js writes for a text of scalar values.
use jaseci.Prelude.{
  ℕ, ◌+◌, ◌-◌, ◌*◌, ◌/◌, ◌%◌, ◌<◌, ◌≤◌, true, false, ◌||◌, List, [], ◌∷◌, ◌++◌, Option, some, ltb,
  leb, ◌==◌, if◌then◌else◌, Str, get_elem?, ◌≡◌, refl, ap, ◌∙◌, arith, Bool-cases, inl, inr, lt→ltb,
  le→ltb, ◌⊎◌, ==→eq,
}
use jaseci.Unicode.{Bytes, units, bytes, utf16, IsScalar, Scalars}
use jaseci.Unicode.Cases.{bytes_cases, two, three, four}
use jaseci.Querystring.{hex_table, unreserved, escape_pair, escape_unit, escape_from, escape}

-- The bytes as `%XY`.
abbrev pub percent : Bytes → Str
percent [] = []
percent (b ∷ bs) = hex_table b ++ percent bs

-- The form of a code point.
abbrev pub written : ℕ → Str
written c = if unreserved c then c ∷ [] else if c == 32 then b'+' ∷ [] else percent (bytes c)

pub unreserved-ascii : (c : ℕ) → unreserved c ≡ true → c < 128
unfolding unreserved
unreserved-ascii c h = ground arith

escape_from-unit :
    (c : ℕ) (rest out : Str)
    → escape_unit c (get_elem? rest 0) ≡ (out, 0)
    → escape_from 0 (c ∷ rest) ≡ out ++ escape_from 0 rest
unfolding escape_from
escape_from-unit c rest out h = rw h refl

escape_from-pair :
    (c d : ℕ) (rest out : Str)
    → escape_unit c (some d) ≡ (out, 1)
    → escape_from 0 (c ∷ d ∷ rest) ≡ out ++ escape_from 0 rest
unfolding escape_from
escape_from-pair c d rest out h = rw h refl

module _ (c : ℕ) (next : Option ℕ) (e : unreserved c ≡ false) (f : (c == 32) ≡ false) where
  unit-one : c < 0x80 → escape_unit c next ≡ (percent (c ∷ []), 0)
  unfolding escape_unit hex_table
  unit-one h = rw (e, f, lt→ltb c 0x80 h) refl

  unit-two : 0x80 ≤ c → c < 0x800 → escape_unit c next ≡ (percent (two c), 0)
  unfolding escape_unit hex_table
  unit-two h k = rw (e, f, le→ltb c 0x80 h, lt→ltb c 0x800 k) refl

  unit-three :
      0x800 ≤ c
      → c < 0x10000
      → (c < 0xd800) ⊎ (0xe000 ≤ c)
      → escape_unit c next ≡ (percent (three c), 0)
  unfolding escape_unit hex_table
  unit-three h k s =
      let outside : (ltb c 0xd800 || leb 0xe000 c) ≡ true = ground (arith, s) in
      rw (e, f, le→ltb c 0x80 (omega arith), le→ltb c 0x800 h, outside) refl

-- A surrogate is not one of the units that are kept.
surrogate_unit :
    (c : ℕ) (next : Option ℕ) → 0xd800 ≤ c → c < 0xe000 → escape_unit c next ≡ escape_pair c next
unfolding escape_unit unreserved
surrogate_unit c next h k = ground arith

joined :
    (c : ℕ)
    → 0x10000 ≤ c
    → c < 0x110000
    → (0xd800 + (c - 0x10000) / 1024) % 1024 * 1024 + (0xdc00 + (c - 0x10000) % 1024) % 1024 + 65536
      ≡ c
joined c h k = ground arith

pair_unit :
    (c : ℕ)
    → 0x10000 ≤ c
    → c < 0x110000
    → escape_unit (0xd800 + (c - 0x10000) / 1024) (some (0xdc00 + (c - 0x10000) % 1024))
      ≡ (percent (four c), 1)
unfolding escape_pair hex_table
pair_unit c h k = surrogate_unit _ _ (omega arith) (omega arith) ∙ rw (joined c h k) refl

pub units-ascii : (c : ℕ) → c < 0x80 → units c ≡ c ∷ []
units-ascii c h = rw (lt→ltb c 0x10000 (omega arith)) refl

kept_unit : (c : ℕ) (next : Option ℕ) → unreserved c ≡ true → escape_unit c next ≡ (c ∷ [], 0)
unfolding escape_unit
kept_unit c next e = rw e refl

space_unit :
    (c : ℕ) (next : Option ℕ)
    → unreserved c ≡ false
    → (c == 32) ≡ true
    → escape_unit c next ≡ (b'+' ∷ [], 0)
unfolding escape_unit
space_unit c next e f = rw (e, f) refl

-- A code point is written, and `escape` goes on after it.
escape_from-units :
    (c : ℕ) (rest : Str)
    → IsScalar c
    → escape_from 0 (units c ++ rest) ≡ written c ++ escape_from 0 rest
escape_from-units c rest h = elim (Bool-cases (unreserved c)) [
  | inl e ↦
      rw (units-ascii c (unreserved-ascii c e), e)
        (escape_from-unit c rest (c ∷ []) (kept_unit c (get_elem? rest 0) e))
  | inr e ↦ elim (Bool-cases (c == 32)) [
    | inl f ↦
        rw (units-ascii c (omega (arith, ==→eq c 32 f)), e, f)
          (escape_from-unit c rest (b'+' ∷ []) (space_unit c (get_elem? rest 0) e f))
    | inr f ↦
        rw (e, f)
          (let next = get_elem? rest 0 in
            bytes_cases (λ b u. escape_from 0 (u ++ rest) ≡ percent b ++ escape_from 0 rest) c
              (λ k. escape_from-unit c rest (percent (c ∷ [])) (unit-one c next e f k))
              (λ k l. escape_from-unit c rest (percent (two c)) (unit-two c next e f k l))
              (λ k l. escape_from-unit c rest (percent (three c)) (unit-three c next e f k l h.1))
              (λ k. escape_from-pair _ _ rest (percent (four c)) (pair_unit c k h.0)))
  ]
]

-- The form of a text.
abbrev pub written_text : List ℕ → Str
written_text [] = []
written_text (c ∷ cs) = written c ++ written_text cs

-- `escape` keeps the unreserved characters of a text of scalar values, writes `+` for a space, and
-- percent-encodes the UTF-8 bytes of every other code point.
pub escape-utf16 : (cs : List ℕ) → Scalars cs → escape (utf16 cs) ≡ written_text cs
unfolding escape
escape-utf16 [] h = unfold escape_from in refl
escape-utf16 (c ∷ cs) h =
    escape_from-units c (utf16 cs) h.0 ∙ ap (λ s. written c ++ s) (escape-utf16 cs h.1)
