-- ===== src/Tests/Queries.antt =====
-- Tests of querystring.js.
use jaseci.Prelude.{
  ℕ, ◌≡◌, refl, List, [], ◌∷◌, ◌++◌, none, some, codes, Str, arith, inl, inr, ap, sym, ◌<◌,
}
use jaseci.Unicode.{utf16, Scalars}
use jaseci.Querystring.{escape, unescape}
use jaseci.Querystring.Objects.Written.{IsText}
use jaseci.Querystring.Escape.{units-ascii}
use jaseci.Querystring.Unescape.{unescape-escape}
use jaseci.Querystring.Objects.{
  parse, stringify, Field, absent, single, array, text, texts, after_inherited,
}
use jaseci.Querystring.Objects.RoundTrip.{parsed_all, parse-stringify}

-- "a é+"
abbrev sample : List ℕ
sample = b'a' ∷ 32 ∷ 0xe9 ∷ b'+' ∷ []

sample-Scalars : Scalars sample
sample-Scalars = (
  (omega arith, inl (omega arith)),
  (
    (omega arith, inl (omega arith)),
    ((omega arith, inl (omega arith)), ((omega arith, inl (omega arith)), tt)),
  ),
)

escape-sample : escape sample ≡ codes "a+%C3%A9%2B"
unfolding escape
escape-sample = refl

unescape_malformed : unescape (codes "a+%") ≡ codes "a+%"
unfolding unescape
unescape_malformed = refl

abbrev amp : ℕ
amp = b'&'

parse_repeated :
    parse (codes "k=1&x&k=2") amp b'=' 1000
    ≡ some ((codes "k", texts (codes "1" ∷ codes "2" ∷ [])) ∷ (codes "x", text []) ∷ [])
unfolding parse
parse_repeated = refl

-- A name of Object.prototype is taken to be there already.
parse_inherited :
    parse (codes "toString=1") amp b'=' 1000
    ≡ some ((codes "toString", after_inherited (codes "1" ∷ [])) ∷ [])
unfolding parse
parse_inherited = refl

unescape-escape_example : unescape (escape (utf16 sample)) ≡ utf16 sample
unescape-escape_example = unescape-escape sample sample-Scalars

abbrev fields : List (Str × Field)
fields = (codes "k", array (codes "1" ∷ codes "&" ∷ [])) ∷ (codes "x", absent) ∷ []

ascii-IsText : (c : ℕ) → c < 0x80 → IsText (c ∷ [])
ascii-IsText c h = (
  c ∷ [],
  ((omega arith, inl (omega arith)), tt),
  ap (λ (s : Str). s ++ []) (sym (units-ascii c h)),
)

parse-stringify_example : parse (stringify fields amp b'=') amp b'=' 1000 ≡ some (parsed_all fields)
unfolding jaseci.Prelude.str_eq jaseci.Querystring.Objects.is_in
    jaseci.Querystring.Objects.object_parts
parse-stringify_example =
    parse-stringify fields 1000
      (
        (
          (ascii-IsText b'k' (omega arith), refl, refl),
          (omega arith, (ascii-IsText b'1' (omega arith), (ascii-IsText b'&' (omega arith), tt))),
        ),
        (((ascii-IsText b'x' (omega arith), refl, refl), tt), tt),
      )
      ((refl, tt), (tt, tt)) (inr (omega arith))
