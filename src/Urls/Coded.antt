-- ===== src/Urls/Coded.antt =====
-- `_percentDecodePath` of url.js on percent-encoded bytes.
use jaseci.Prelude.{
  All, ℕ, zero, ◌+◌, ◌<◌, ◌/◌, ◌%◌, Bool, true, false, ◌&&◌, ◌||◌, [], ◌∷◌, ◌++◌, Option, none,
  some, ◌==◌, if◌then◌else◌, Str, codes, starts_with, index_of_text, to_lower_case, shift, ◌≡◌, ◌≢◌,
  refl, ap, sym, ◌∙◌, arith, Bool-cases, inl, inr, within, ne→==, eq→==, ==→eq,
}
use jaseci.Querystring.{octet, hex_char, hex_table}
use jaseci.Querystring.Octets.{octet-hex_table}
use jaseci.Urls.{percent_decode, has_text, has_separator, is_found, path, decoded_path}

-- The bytes that a percent-encoder keeps, which writes the others as two digits: percent signs are
-- encoded, slashes and backslashes are not, and only bytes of ASCII are kept.
pub record IsCoding (keep : ℕ → Bool) : Type 0 where
  pub percent : keep b'%' ≡ false
  pub slash : keep b'/' ≡ true
  pub backslash : keep 92 ≡ true
  pub ascii : (c : ℕ) → keep c ≡ true → c < 128

-- Percent-encoded bytes
abbrev pub coded : (ℕ → Bool) → Str → Str
coded keep [] = []
coded keep (c ∷ s) = (if keep c then c ∷ [] else hex_table c) ++ coded keep s

octet-other : (c : ℕ) (s : Str) → c ≢ b'%' → octet (c ∷ s) ≡ none
unfolding octet
octet-other c [] h = refl
octet-other c (x ∷ []) h = refl
octet-other c (x ∷ y ∷ s) h = rw (ne→== c b'%' h) refl

percent_decode-kept :
    (c : ℕ) (s : Str) → c ≢ b'%' → percent_decode zero (c ∷ s) ≡ c ∷ percent_decode zero s
unfolding percent_decode
percent_decode-kept c s h = rw (percent_decode, octet-other c s h) refl

percent_decode-hex_table :
    (b : ℕ) (s : Str) → b < 256 → percent_decode zero (hex_table b ++ s) ≡ b ∷ percent_decode zero s
unfolding percent_decode hex_table
percent_decode-hex_table b s h =
    let e : octet (b'%' ∷ hex_char (b / 16) ∷ hex_char (b % 16) ∷ s) ≡ some b =
      octet-hex_table b s h in
    rw (percent_decode, e) refl

-- A kept unit is not a percent sign.
kept_other : (keep : ℕ → Bool) (k : IsCoding keep) (c : ℕ) → keep c ≡ true → c ≢ b'%'
kept_other keep k c e f = absurd (cc (e, f, k.percent))

percent_decode-coded :
    (keep : ℕ → Bool) (k : IsCoding keep) (s : Str)
    → All (λ b. b < 256) s
    → percent_decode zero (coded keep s) ≡ s
percent_decode-coded keep k [] h = unfold percent_decode in refl
percent_decode-coded keep k (c ∷ s) h = elim (Bool-cases (keep c)) [
  | inl e ↦
      rw (e, percent_decode-kept c (coded keep s) (kept_other keep k c e))
        (ap (c ∷◌) (percent_decode-coded keep k s h.1))
  | inr e ↦
      rw (e, percent_decode-hex_table c (coded keep s) h.0)
        (ap (c ∷◌) (percent_decode-coded keep k s h.1))
]

has_text-next :
    (c : ℕ) (pattern s : Str)
    → starts_with pattern (c ∷ s) ≡ false
    → has_text pattern (c ∷ s) ≡ has_text pattern s
unfolding has_text index_of_text
has_text-next c pattern s h = rw h (found_shift (index_of_text pattern s))
  where
    found_shift : (o : Option ℕ) → is_found (shift 1 o) ≡ is_found o
    found_shift none = unfold is_found in refl
    found_shift (some i) = unfold is_found in refl

-- A unit in small letters
abbrev lower : ℕ → ℕ
lower c = if within b'A' b'Z' c || within 0xc0 0xd6 c || within 0xd8 0xde c then c + 32 else c

lower-other : (c : ℕ) → c ≢ b'%' → lower c ≢ b'%'
lower-other c h = ground arith

lower-hex_char : (d e : ℕ) → d < 16 → e < 16 → lower (hex_char d) ≡ lower (hex_char e) → d ≡ e
unfolding hex_char
lower-hex_char d e h k f = ground arith

hex_char-other : (d : ℕ) → hex_char d ≢ b'%'
unfolding hex_char
hex_char-other d = ground arith

-- The text that `/%2f/i` and `/%5c/i` look for, for the byte `t`.
abbrev sought : ℕ → Str
sought t = b'%' ∷ lower (hex_char (t / 16)) ∷ lower (hex_char (t % 16)) ∷ []

starts_with-other : (t c : ℕ) (s : Str) → c ≢ b'%' → starts_with (sought t) (c ∷ s) ≡ false
unfolding starts_with
starts_with-other t c s h = rw (ne→== b'%' c (λ e. h (sym e))) refl

starts_with-hex :
    (t c : ℕ) (s : Str)
    → t < 256
    → c < 256
    → t ≢ c
    → starts_with (sought t) (b'%' ∷ lower (hex_char (c / 16)) ∷ lower (hex_char (c % 16)) ∷ s)
      ≡ false
unfolding starts_with
starts_with-hex t c s h k d = elim (Bool-cases (t / 16 == c / 16)) [
  | inl e ↦
      let high : t / 16 ≡ c / 16 = ==→eq (t / 16) (c / 16) e in
      let low : t % 16 ≢ c % 16 = λ f. d (omega arith) in
      rw
        (ne→== (lower (hex_char (t % 16))) (lower (hex_char (c % 16)))
          (λ f. low (lower-hex_char (t % 16) (c % 16) (omega arith) (omega arith) f)))
        (and_false (lower (hex_char (t / 16)) == lower (hex_char (c / 16))))
  | inr e ↦
      let high : t / 16 ≢ c / 16 = λ f. absurd (cc (eq→== (t / 16) (c / 16) f)) in
      rw
        (ne→== (lower (hex_char (t / 16))) (lower (hex_char (c / 16)))
          (λ f. high (lower-hex_char (t / 16) (c / 16) (omega arith) (omega arith) f)))
        refl
]
  where
    and_false : (b : Bool) → (b && false) ≡ false
    and_false true = refl
    and_false false = refl

-- No unit that is percent-encoded is the one that is looked for.
has_text-coded :
    (keep : ℕ → Bool) (k : IsCoding keep) (t : ℕ)
    → t < 256
    → keep t ≡ true
    → (s : Str) → All (λ b. b < 256) s
    → has_text (sought t) (to_lower_case (coded keep s)) ≡ false
unfolding to_lower_case
has_text-coded keep k t small kept [] bs = unfold has_text index_of_text is_found in refl
has_text-coded keep k t small kept (c ∷ s) bs = elim (Bool-cases (keep c)) [
  | inl e ↦
      let rest = to_lower_case (coded keep s) in
      rw
        (
          e,
          has_text-next (lower c) (sought t) rest
              (starts_with-other t (lower c) rest (lower-other c (kept_other keep k c e))),
        )
        (has_text-coded keep k t small kept s bs.1)
  | inr e ↦
      let rest = to_lower_case (coded keep s) in
      let l = lower (hex_char (c % 16)) in
      let h = lower (hex_char (c / 16)) in
      let opened : has_text (sought t) (to_lower_case (hex_table c ++ coded keep s))
          ≡ has_text (sought t) (b'%' ∷ h ∷ l ∷ rest) =
        unfold hex_table in refl in
      let differs : t ≢ c = λ f. absurd (cc (ap keep f, kept, e)) in
      ap
        (λ (b : Bool).
          has_text (sought t) (to_lower_case ((if b then c ∷ [] else hex_table c) ++ coded keep s)))
        e
      ∙ opened
      ∙ has_text-next b'%' (sought t) (h ∷ l ∷ rest) (starts_with-hex t c rest small bs.0 differs)
      ∙ has_text-next h (sought t) (l ∷ rest) (
          starts_with-other t h (l ∷ rest)
            (lower-other (hex_char (c / 16)) (hex_char-other (c / 16))))
      ∙ has_text-next l (sought t) rest
          (starts_with-other t l rest (lower-other (hex_char (c % 16)) (hex_char-other (c % 16))))
      ∙ has_text-coded keep k t small kept s bs.1
]

has_separator-coded :
    (keep : ℕ → Bool) (k : IsCoding keep) (s : Str)
    → All (λ b. b < 256) s
    → has_separator (coded keep s) ≡ false
unfolding has_separator
has_separator-coded keep k s bs = rw (slash, backslash) refl
  where
    slash : has_text (codes "%2f") (to_lower_case (coded keep s)) ≡ false
    slash = unfold hex_char in has_text-coded keep k b'/' (omega arith) k.slash s bs

    backslash : has_text (codes "%5c") (to_lower_case (coded keep s)) ≡ false
    backslash = unfold hex_char in has_text-coded keep k 92 (omega arith) k.backslash s bs

pub decoded_path-coded :
    (keep : ℕ → Bool) (k : IsCoding keep) (s : Str)
    → All (λ b. b < 256) s
    → decoded_path (coded keep s) ≡ path s
unfolding decoded_path
decoded_path-coded keep k s bs =
    rw (has_separator-coded keep k s bs) (ap path (percent_decode-coded keep k s bs))
