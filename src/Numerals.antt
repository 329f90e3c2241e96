-- ===== src/Numerals.antt =====
-- Numbers as text in JavaScript, where the modules of jac/js_engine/engine/src/builtins/js read and
-- write them: `n.toString(base)`, `parseInt(s, base)` and white space.
pub mod Laws
pub mod Decimal
use jaseci.Prelude.{
  ℕ, zero, suc, ◌+◌, ◌-◌, ◌*◌, ◌/◌, ◌%◌, Bool, true, false, ◌&&◌, ◌||◌, List, [], ◌∷◌, map, Option,
  none, some, ltb, ◌==◌, within, if◌then◌else◌, Str, reverse, length,
}

-- The code unit of a digit, in lower case.
unfoldable pub digit : ℕ → ℕ
digit d = if ltb d 10 then b'0' + d else b'a' + d - 10

-- The value of a digit in a base of 36 at most.
unfoldable pub digit_value : ℕ → ℕ → Option ℕ
digit_value base c =
    let v =
      if within b'0' b'9' c
      then c - b'0'
      else if within b'a' b'z' c
      then c - b'a' + 10
      else if within b'A' b'Z' c
      then c - b'A' + 10
      else base in
    if ltb v base then some v else none

-- The digits of a number in front of those given; the fuel is more than the number.
unfoldable pub to_digits : ℕ → ℕ → ℕ → List ℕ → List ℕ
to_digits zero base n ds = ds
to_digits (suc fuel) base n ds =
    let more = to_digits fuel base (n / base) ((n % base) ∷ ds) in
    if ltb n base then n ∷ ds else more

-- `n.toString(base)`
unfoldable pub to_string : ℕ → ℕ → Str
unfolding to_digits digit
to_string base n = map digit (to_digits (suc n) base n [])

unfoldable pub horner : ℕ → ℕ → List ℕ → ℕ
horner base v [] = v
horner base v (d ∷ ds) = horner base (v * base + d) ds

-- The values of the digits that the text starts with.
unfoldable pub leading_digits : ℕ → Str → List ℕ
unfolding digit_value
leading_digits base [] = []
leading_digits base (c ∷ s) = elim (digit_value base c) [
  | none ↦ []
  | some v ↦ v ∷ leading_digits base s
]

-- StrWhiteSpaceChar of the language
unfoldable pub is_space : ℕ → Bool
is_space c =
    within 9 13 c
    || c == 32
    || c == 0xa0
    || c == 0x1680
    || within 0x2000 0x200a c
    || within 0x2028 0x2029 c
    || c == 0x202f
    || c == 0x205f
    || c == 0x3000
    || c == 0xfeff

-- `s.trimStart()`
unfoldable pub trim_start : Str → Str
unfolding is_space
trim_start [] = []
trim_start (c ∷ s) = let rest = trim_start s in if is_space c then rest else c ∷ s

-- What `parseInt` gives; -0 counts as 0.
pub data Parsed : Type 0 where
  nan : Parsed
  number : ℕ → Parsed
  minus : ℕ → Parsed

unfoldable pub negate : Parsed → Parsed
negate nan = nan
negate (number zero) = number zero
negate (number (suc n)) = minus (suc n)
negate (minus n) = number n

-- A number without a sign.
unfoldable pub parse_digits : ℕ → Str → Parsed
unfolding leading_digits horner
parse_digits base s = elim (leading_digits base s) [
  | [] ↦ nan
  | d ∷ ds ↦ number (horner base 0 (d ∷ ds))
]

-- In base 16 a prefix 0x is left out.
unfoldable pub strip_0x : ℕ → Str → Str
strip_0x base (c ∷ x ∷ s) =
    if base == 16 && (c == b'0' && (x == b'x' || x == b'X')) then s else c ∷ x ∷ s
strip_0x base s = s

unfoldable pub parse_signed : ℕ → Str → Parsed
unfolding negate parse_digits strip_0x
parse_signed base [] = nan
parse_signed base (c ∷ s) =
    if c == b'-'
    then negate (parse_digits base (strip_0x base s))
    else parse_digits base (strip_0x base (if c == b'+' then s else c ∷ s))

-- `parseInt(s, base)`
unfoldable pub parse_int : ℕ → Str → Parsed
unfolding trim_start parse_signed
parse_int base s = parse_signed base (trim_start s)

-- `s.trim()`
unfoldable pub trim : Str → Str
unfolding trim_start
trim s = reverse (trim_start (reverse (trim_start s)))

-- What `Number(s)` gives: a number, or, with the text, what is not read here (NaN, a sign, a fraction,
-- an exponent).
pub data Numeric : Type 0 where
  integer : ℕ → Numeric
  other : Str → Numeric

-- The number of digits, if the text has nothing else.
unfoldable pub all_digits : ℕ → Str → Numeric
unfolding leading_digits horner
all_digits base s =
    let ds = leading_digits base s in
    if length ds == length s then integer (horner base 0 ds) else other s

unfoldable pub trimmed_number : Str → Numeric
unfolding all_digits
trimmed_number [] = integer 0
trimmed_number (c ∷ []) = all_digits 10 (c ∷ [])
trimmed_number (c ∷ x ∷ []) = all_digits 10 (c ∷ x ∷ [])
trimmed_number (c ∷ x ∷ d ∷ s) =
    if c == b'0' && (x == b'x' || x == b'X')
    then all_digits 16 (d ∷ s)
    else if c == b'0' && (x == b'o' || x == b'O')
    then all_digits 8 (d ∷ s)
    else if c == b'0' && (x == b'b' || x == b'B')
    then all_digits 2 (d ∷ s)
    else all_digits 10 (c ∷ x ∷ d ∷ s)

unfoldable pub to_number : Str → Numeric
unfolding trim trimmed_number
to_number s = trimmed_number (trim s)
