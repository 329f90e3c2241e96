-- ===== src/Numerals/Laws.antt =====
-- A number that is written in a base is read back.
use jaseci.Prelude.{
  ℕ, zero, suc, ◌/◌, ◌%◌, ◌<◌, ◌≤◌, Bool, false, ◌&&◌, ◌||◌, List, [], ◌∷◌, map, some, ltb, ◌==◌,
  Str, ◌≡◌, ◌≢◌, refl, ap, ◌∙◌, arith, All, Bool-cases, inl, inr, ltb→lt, ltb→le, if_false, if_both,
}
use jaseci.Numerals.{
  digit, digit_value, to_digits, to_string, horner, leading_digits, is_space, trim_start, number,
  parse_digits, strip_0x, parse_signed, parse_int,
}

-- The digits of a number.
abbrev pub Digits : ℕ → List ℕ → Type 0
Digits base = All (λ d. d < base)

module _ (base : ℕ) (two : 2 ≤ base) where
  div-lt : (n : ℕ) → base ≤ n → n / base < n
  div-lt n h = grind arith

  to_digits-Digits :
      (fuel n : ℕ) (ds : List ℕ)
      → n < fuel
      → Digits base ds
      → Digits base (to_digits fuel base n ds)
  unfolding to_digits
  to_digits-Digits zero n ds h k = k
  to_digits-Digits (suc fuel) n ds h k = elim (Bool-cases (ltb n base)) [
    | inl e ↦ rw e (ltb→lt n base e, k)
    | inr e ↦
        let big = ltb→le n base e in
        rw e (
          to_digits-Digits fuel (n / base) ((n % base) ∷ ds) (omega (arith, div-lt n big))
            (grind arith, k))
  ]

  horner-to_digits :
      (fuel n : ℕ) (ds : List ℕ)
      → n < fuel
      → horner base 0 (to_digits fuel base n ds) ≡ horner base n ds
  unfolding to_digits horner
  horner-to_digits zero n ds h = absurd (omega arith)
  horner-to_digits (suc fuel) n ds h = elim (Bool-cases (ltb n base)) [
    | inl e ↦ rw e (ap (λ (v : ℕ). horner base v ds) (omega arith))
    | inr e ↦
        let big = ltb→le n base e in
        rw e (
          horner-to_digits fuel (n / base) ((n % base) ∷ ds) (omega (arith, div-lt n big))
          ∙ ap (λ (v : ℕ). horner base v ds) (grind arith))
  ]

-- The digits of 16 are read in every base above them.
digit_value-digit : (base d : ℕ) → d < base → base ≤ 16 → digit_value base (digit d) ≡ some d
unfolding digit_value digit
digit_value-digit base d h k = ground arith

pub leading_digits-map :
    (base : ℕ) (ds : List ℕ) → base ≤ 16 → Digits base ds → leading_digits base (map digit ds) ≡ ds
unfolding leading_digits
leading_digits-map base [] h k = refl
leading_digits-map base (d ∷ ds) h k =
    rw (digit_value-digit base d k.0 h, leading_digits)
      (ap (d ∷◌) (leading_digits-map base ds h k.1))

-- A digit is no white space, no sign and no `x`.
pub digit_plain :
    (d : ℕ)
    → d < 16
    → (is_space (digit d) ≡ false)
      × ((digit d == b'-') ≡ false)
      × ((digit d == b'+') ≡ false)
      × ((digit d == b'x' || digit d == b'X') ≡ false)
unfolding digit is_space
digit_plain d h = ground arith

pub &&-false : (a b : Bool) → b ≡ false → (a && b) ≡ false
&&-false a b e = ground (arith)

-- No prefix 0x stands in front of digits.
strip_0x_plain :
    (base : ℕ) (ds : List ℕ)
    → base ≤ 16
    → Digits base ds
    → strip_0x base (map digit ds) ≡ map digit ds
unfolding strip_0x
strip_0x_plain base [] h k = refl
strip_0x_plain base (d ∷ []) h k = refl
strip_0x_plain base (d ∷ e ∷ ds) h k =
    let no_x = (digit_plain e (omega (arith, k.1.0))).3 in
    if_false _ _ (&&-false (base == 16) _ (&&-false (digit d == b'0') _ no_x))

pub parse_int-map :
    (base d : ℕ) (ds : List ℕ)
    → base ≤ 16
    → Digits base (d ∷ ds)
    → parse_int base (map digit (d ∷ ds)) ≡ number (horner base 0 (d ∷ ds))
unfolding parse_int trim_start parse_signed parse_digits
parse_int-map base d ds h k =
    let (space, dash, plus, _) = digit_plain d (omega (arith, k.0)) in
    rw
      (
        space,
        trim_start,
        dash,
        parse_signed,
        plus,
        strip_0x_plain base (d ∷ ds) h k,
        leading_digits-map base (d ∷ ds) h k,
        parse_digits,
      )
      refl

abbrev NonEmpty : List ℕ → Type 0
NonEmpty ds = ds ≢ []

to_digits-grows : (fuel base n d : ℕ) (ds : List ℕ) → NonEmpty (to_digits fuel base n (d ∷ ds))
unfolding to_digits
to_digits-grows zero base n d ds = cc
to_digits-grows (suc fuel) base n d ds =
    if_both NonEmpty (ltb n base) (n ∷ d ∷ ds)
      (to_digits fuel base (n / base) ((n % base) ∷ d ∷ ds)) (cc)
      (to_digits-grows fuel base (n / base) (n % base) (d ∷ ds))

to_digits-ne-nil : (base n : ℕ) → NonEmpty (to_digits (suc n) base n [])
unfolding to_digits
to_digits-ne-nil base n =
    if_both NonEmpty (ltb n base) (n ∷ []) (to_digits n base (n / base) ((n % base) ∷ [])) (cc)
      (to_digits-grows n base (n / base) (n % base) [])

-- A number is written as the units of one digit or more, of which it is the value.
pub record IsWritten (base n : ℕ) (s : Str) : Type 0 where
  pub first : ℕ
  pub others : List ℕ
  pub digits : Digits base (first ∷ others)
  pub units : s ≡ map digit (first ∷ others)
  pub value : horner base 0 (first ∷ others) ≡ n

pub to_string-IsWritten : (base n : ℕ) → 2 ≤ base → IsWritten base n (to_string base n)
unfolding to_string horner
to_string-IsWritten base n h =
    by_digits (to_digits (suc n) base n []) (to_digits-Digits base h (suc n) n [] (omega arith) tt)
      (horner-to_digits base h (suc n) n [] (omega arith)) (to_digits-ne-nil base n)
  where
    by_digits :
        (ds : List ℕ)
        → Digits base ds
        → horner base 0 ds ≡ n
        → NonEmpty ds
        → IsWritten base n (map digit ds)
    by_digits [] d v e = absurd (e refl)
    by_digits (x ∷ ds) d v e = record {
      first = x;
      others = ds;
      digits = d;
      units = refl;
      value = v;
    }

-- `parseInt` reads what `toString` wrote, in a base from 2 to 16.
pub parse_int-to_string :
    (base n : ℕ) → 2 ≤ base → base ≤ 16 → parse_int base (to_string base n) ≡ number n
parse_int-to_string base n h k =
    let w = to_string-IsWritten base n h in
    ap (parse_int base) w.units ∙ parse_int-map base w.first w.others k w.digits ∙ ap number w.value
