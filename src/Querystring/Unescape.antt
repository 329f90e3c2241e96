-- ===== src/Querystring/Unescape.antt =====
-- `unescape` of querystring.js undoes `escape`.
use jaseci.Prelude.{
  ℕ, suc, ◌-◌, ◌*◌, ◌/◌, ◌%◌, ◌<◌, true, false, List, [], ◌∷◌, ◌++◌, some, ◌==◌, if◌then◌else◌, Str,
  length, split, join, split-ne-nil, join-nil, join-cons_head, ◌≡◌, ◌≢◌, refl, ap, sym, ◌∙◌, arith,
  All, Bool-cases, inl, inr, ==→eq,
}
use mathlib.Core.Option
use jaseci.Unicode.{Bytes, units, bytes, utf16, IsScalar, Scalars}
use jaseci.Unicode.Cases.{bytes-ne-nil}
use jaseci.Querystring.{
  hex_char, hex_table, unreserved, uri_round, decode_uri_from, decode_uri_component, unescape,
  escape,
}
use jaseci.Querystring.Escape.{
  percent, written, written_text, escape-utf16, units-ascii, unreserved-ascii,
}
use jaseci.Querystring.Octets.{uri_round-percent, bytes-small}

-- `s.split("+").join(" ")`
abbrev space_of : ℕ → ℕ
space_of c = if c == b'+' then b' ' else c

abbrev spaced : Str → Str
spaced [] = []
spaced (c ∷ s) = space_of c ∷ spaced s

join-split_spaces : (s : Str) → join b' ' (split b'+' s) ≡ spaced s
unfolding split
join-split_spaces [] = unfold join in refl
join-split_spaces (c ∷ s) = elim (Bool-cases (c == b'+')) [
  | inl e ↦ rw (e, join-nil b' ' (split b'+' s) (split-ne-nil b'+' s), join-split_spaces s) refl
  | inr e ↦
      rw (e, join-cons_head b' ' c (split b'+' s) (split-ne-nil b'+' s), join-split_spaces s) refl
]

spaced-append : (s t : Str) → spaced (s ++ t) ≡ spaced s ++ spaced t
spaced-append [] t = refl
spaced-append (c ∷ s) t = ap (space_of c ∷◌) (spaced-append s t)

-- No `+` is in a percent-encoded text.
hex_char-plus : (d : ℕ) → d < 16 → (hex_char d == b'+') ≡ false
unfolding hex_char
hex_char-plus d h = ground arith

spaced-hex_table : (b : ℕ) → b < 256 → spaced (hex_table b) ≡ hex_table b
unfolding hex_table
spaced-hex_table b h =
    rw (hex_char-plus (b / 16) (ground arith), hex_char-plus (b % 16) (ground arith)) refl

spaced-percent : (bs : Bytes) → All (λ b. b < 256) bs → spaced (percent bs) ≡ percent bs
spaced-percent [] h = refl
spaced-percent (b ∷ bs) h =
    spaced-append (hex_table b) (percent bs)
    ∙ rw (spaced-hex_table b h.0, spaced-percent bs h.1) refl

-- decodeURIComponent, one round.
decode_uri_from-skip :
    (taken rest : Str) → decode_uri_from (length taken) (taken ++ rest) ≡ decode_uri_from 0 rest
unfolding decode_uri_from
decode_uri_from-skip [] rest = refl
decode_uri_from-skip (c ∷ taken) rest = decode_uri_from-skip taken rest

decode_uri_from-round :
    (c : ℕ) (taken rest out : Str)
    → uri_round c (c ∷ taken ++ rest) ≡ some (out, suc (length taken))
    → decode_uri_from 0 (c ∷ taken ++ rest)
      ≡ Option.map (λ (more : Str). out ++ more) (decode_uri_from 0 rest)
unfolding decode_uri_from
decode_uri_from-round c taken rest out h =
    let e : suc (length taken) - 1 ≡ length taken = omega arith in
    rw (h, decode_uri_from) (rw (e, decode_uri_from-skip taken rest) refl)

-- What the spaced form of a code point is read as.
length-percent : (bs : Bytes) → length (percent bs) ≡ length bs * 3
unfolding hex_table
length-percent [] = refl
length-percent (b ∷ bs) = omega (arith, length-percent bs)

plain_round : (c : ℕ) (s : Str) → (c == b'%') ≡ false → uri_round c s ≡ some (c ∷ [], 1)
unfolding uri_round
plain_round c s h = rw h refl

unreserved-plain : (c : ℕ) → unreserved c ≡ true → ((c == b'%') ≡ false) × ((c == b'+') ≡ false)
unfolding unreserved
unreserved-plain c h = ground arith

abbrev Reads : Str → ℕ → Type 0
Reads s c =
    (rest : Str)
    → decode_uri_from 0 (s ++ rest)
      ≡ Option.map (λ (more : Str). units c ++ more) (decode_uri_from 0 rest)

percent-cons : (bs : Bytes) → bs ≢ [] → (taken : Str) × (percent bs ≡ b'%' ∷ taken)
unfolding hex_table
percent-cons [] h = absurd (h refl)
percent-cons (b ∷ bs) h = (_, refl)

percent-Reads : (c : ℕ) → IsScalar c → Reads (percent (bytes c)) c
percent-Reads c h rest =
    let (taken, e) = percent-cons (bytes c) (bytes-ne-nil c) in
    let size : length (bytes c) * 3 ≡ suc (length taken) =
      sym (length-percent (bytes c)) ∙ ap length e in
    let round : uri_round b'%' (b'%' ∷ taken ++ rest) ≡ some (units c, suc (length taken)) =
      ap (λ s. uri_round b'%' (s ++ rest)) (sym e)
      ∙ uri_round-percent c rest h
      ∙ ap (λ (n : ℕ). some (units c, n)) size in
    rw e (decode_uri_from-round b'%' taken rest (units c) round)

plain-Reads : (c : ℕ) → c < 0x80 → (c == b'%') ≡ false → Reads (c ∷ []) c
plain-Reads c h k rest =
    rw (units-ascii c h) (decode_uri_from-round c [] rest (c ∷ []) (plain_round c (c ∷ rest) k))

written-Reads : (c : ℕ) → IsScalar c → Reads (spaced (written c)) c
written-Reads c h = elim (Bool-cases (unreserved c)) [
  | inl e ↦
      let (percent, plus) = unreserved-plain c e in
      rw (e, plus) (plain-Reads c (unreserved-ascii c e) percent)
  | inr e ↦ elim (Bool-cases (c == 32)) [
    | inl f ↦
        rw (e, f, sym (==→eq c 32 f))
          (plain-Reads c (omega (arith, ==→eq c 32 f)) (ground (arith, f)))
    | inr f ↦ rw (e, f, spaced-percent (bytes c) (bytes-small c h)) (percent-Reads c h)
  ]
]

decode-written :
    (cs : List ℕ) → Scalars cs → decode_uri_from 0 (spaced (written_text cs)) ≡ some (utf16 cs)
decode-written [] h = unfold decode_uri_from in refl
decode-written (c ∷ cs) h =
    ap (decode_uri_from 0) (spaced-append (written c) (written_text cs))
    ∙ written-Reads c h.0 (spaced (written_text cs))
    ∙ ap (Option.map (λ (more : Str). units c ++ more)) (decode-written cs h.1)

-- `unescape` gives back every text of scalar values that `escape` wrote.
pub unescape-escape : (cs : List ℕ) → Scalars cs → unescape (escape (utf16 cs)) ≡ utf16 cs
unfolding unescape decode_uri_component
unescape-escape cs h = rw (escape-utf16 cs h) (
    let e : decode_uri_from 0 (join b' ' (split b'+' (written_text cs))) ≡ some (utf16 cs) =
      ap (decode_uri_from 0) (join-split_spaces (written_text cs)) ∙ decode-written cs h in
    rw (e, unescape) refl)
