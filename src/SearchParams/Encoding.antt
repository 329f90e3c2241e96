-- ===== src/SearchParams/Encoding.antt =====
-- The texts that `_sp_encode` of url.js writes.
use jaseci.Prelude.{
  ℕ, ◌<◌, true, false, List, [], ◌∷◌, ◌++◌, some, within, ◌==◌, Str, All, All-append, ◌≡◌, ◌≢◌,
  refl, ap, sym, subst, ◌∙◌, arith, Bool-cases, inl, inr, ==→eq, if_both, lt→ltb, ◌/◌, ◌%◌,
}
use jaseci.Unicode.{bytes, utf16, IsScalar, Scalars}
use jaseci.Querystring.{hex_char, hex_table, unreserved, unescape, escape}
use jaseci.Querystring.Escape.{percent, written, written_text, escape-utf16}
use jaseci.Querystring.Unescape.{unescape-escape}
use jaseci.Querystring.Objects.Pairs.{IsClean, escape-IsClean}
use jaseci.SearchParams.{encode_bytes, encode_uri_unit, is_kept, encode_unit, sp_encode, sp_decode}

-- A code unit that is a code point of its own.
abbrev pub IsPlainUnit : ℕ → Type 0
IsPlainUnit c = IsScalar c × (c < 0x10000)

abbrev pub IsPlain : Str → Type 0
IsPlain = All IsPlainUnit

pub plain-Scalars : (s : Str) → IsPlain s → Scalars s
plain-Scalars [] h = tt
plain-Scalars (c ∷ s) h = (h.0.0, plain-Scalars s h.1)

plain_text : (s : Str) → IsPlain s → utf16 s ≡ s
plain_text [] h = refl
plain_text (c ∷ s) h = rw (lt→ltb c 0x10000 h.0.1) (ap (c ∷◌) (plain_text s h.1))

encode_bytes-percent : (bs : List ℕ) → encode_bytes bs ≡ percent bs
unfolding encode_bytes
encode_bytes-percent [] = refl
encode_bytes-percent (b ∷ bs) = ap (hex_table b ++◌) (encode_bytes-percent bs)

is_kept-unreserved : (c : ℕ) → is_kept c ≡ true → unreserved c ≡ true
unfolding is_kept unreserved
is_kept-unreserved c h = ground arith

space_reserved : unreserved 32 ≡ false
unfolding unreserved
space_reserved = refl

no_surrogate : (c : ℕ) → IsScalar c → within 0xd800 0xdfff c ≡ false
no_surrogate c (h, inl k) = ground (arith, k)
no_surrogate c (h, inr k) = ground (arith, k)

encode_unit-written : (c : ℕ) → IsPlainUnit c → encode_unit c ≡ some (written c)
unfolding encode_unit encode_uri_unit
encode_unit-written c h = elim (Bool-cases (is_kept c)) [
  | inl e ↦ rw (e, is_kept-unreserved c e) refl
  | inr e ↦ elim (Bool-cases (c == 32)) [
    | inl f ↦
        let r : unreserved c ≡ false = ap unreserved (==→eq c 32 f) ∙ space_reserved in
        rw (e, f, r) refl
    | inr f ↦ rw (e, f, no_surrogate c h.0, encode_bytes-percent (bytes c)) refl
  ]
]

-- On a text without surrogates `_sp_encode` writes what `escape` of querystring.js does.
pub sp_encode-escape : (s : Str) → IsPlain s → sp_encode s ≡ some (escape s)
unfolding sp_encode
sp_encode-escape s h =
    written_form s h
    ∙ ap some (sym (escape-utf16 s (plain-Scalars s h)) ∙ ap escape (plain_text s h))
  where
    written_form : (s : Str) → IsPlain s → sp_encode s ≡ some (written_text s)
    written_form [] h = refl
    written_form (c ∷ s) h = rw (encode_unit-written c h.0, sp_encode, written_form s h.1) refl

pub sp_decode-escape : (s : Str) → IsPlain s → sp_decode (escape s) ≡ s
unfolding sp_decode
sp_decode-escape s h =
    ap (λ (x : Str). unescape (escape x)) (sym (plain_text s h))
    ∙ unescape-escape s (plain-Scalars s h)
    ∙ plain_text s h

pub escaped-IsClean : (s : Str) → IsPlain s → All IsClean (escape s)
escaped-IsClean s h =
    subst (λ (x : Str). All IsClean (escape x)) (plain_text s h)
      (escape-IsClean s (plain-Scalars s h))

abbrev pub IsUnmarked : ℕ → Type 0
IsUnmarked c = c ≢ b'?'

hex_char-IsUnmarked : (d : ℕ) → IsUnmarked (hex_char d)
unfolding hex_char
hex_char-IsUnmarked d = ground arith

percent-IsUnmarked : (bs : List ℕ) → All IsUnmarked (percent bs)
unfolding hex_table
percent-IsUnmarked [] = tt
percent-IsUnmarked (b ∷ bs) = (
  omega arith,
  (hex_char-IsUnmarked (b / 16), (hex_char-IsUnmarked (b % 16), percent-IsUnmarked bs)),
)

unreserved-IsUnmarked : (c : ℕ) → unreserved c ≡ true → IsUnmarked c
unfolding unreserved
unreserved-IsUnmarked c h = ground arith

written-IsUnmarked : (c : ℕ) → All IsUnmarked (written c)
written-IsUnmarked c = elim (Bool-cases (unreserved c)) [
  | inl e ↦ rw e (unreserved-IsUnmarked c e, tt)
  | inr e ↦ rw e (
      if_both (All IsUnmarked) (c == 32) (b'+' ∷ []) (percent (bytes c)) (omega arith, tt)
        (percent-IsUnmarked (bytes c)))
]

written_text-IsUnmarked : (s : Str) → All IsUnmarked (written_text s)
written_text-IsUnmarked [] = tt
written_text-IsUnmarked (c ∷ s) =
    All-append IsUnmarked (written c) (written_text s) (written-IsUnmarked c)
      (written_text-IsUnmarked s)

pub escape-IsUnmarked : (s : Str) → IsPlain s → All IsUnmarked (escape s)
escape-IsUnmarked s h =
    subst (All IsUnmarked) (sym (escape-utf16 s (plain-Scalars s h)) ∙ ap escape (plain_text s h))
      (written_text-IsUnmarked s)
