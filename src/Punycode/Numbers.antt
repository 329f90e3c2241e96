-- ===== src/Punycode/Numbers.antt =====
-- The variable-length integers of Punycode: what `encode` writes, `decode` reads.
use jaseci.Prelude.{
  ℕ, zero, suc, ◌+◌, ◌-◌, ◌*◌, ◌/◌, ◌%◌, ◌<◌, ◌≤◌, false, ◌||◌, [], ◌∷◌, ◌++◌, ltb, lt→ltb, ltb→le,
  ltb→lt, leb, Bool-cases, inl, inr, Str, ◌≡◌, refl, ap, ◌∙◌, arith, ◌≢◌,
}
use native.Mathlib.Nat.{
  le-div_iff_mul-le, div-add-mod', mod-lt, mul-le-mul_left, mul-le-mul_right, one-le-mul,
}
use jaseci.Punycode.{
  Result, ok, err, ◌>>=◌, max_int, basic_to_digit, digit_to_basic, threshold, read_number,
  write_number,
}

-- A digit is read back from its character.
pub basic_to_digit-digit_to_basic : (d : ℕ) → d < 36 → basic_to_digit (digit_to_basic d) ≡ d
unfolding basic_to_digit digit_to_basic
basic_to_digit-digit_to_basic d h = ground arith

-- The threshold lies between TMIN and TMAX.
pub threshold_bounds : (k bias : ℕ) → (1 ≤ threshold k bias) × (threshold k bias ≤ 26)
unfolding threshold
threshold_bounds k bias = ground arith

-- What is left for the later digits is smaller.
smaller : (q t fuel : ℕ) → 1 ≤ t → t ≤ 26 → t ≤ q → q < suc fuel → (q - t) / (36 - t) < fuel
smaller q t fuel a b c d = ground arith

no_overflow :
    (i w digit : ℕ)
    → i + digit * w ≤ max_int
    → 1 ≤ w
    → (ltb max_int i || ltb ((max_int - i) / w) digit) ≡ false
no_overflow i w digit h p =
    let fits : digit ≤ (max_int - i) / w = (le-div_iff_mul-le p).1 (omega arith) in
    let below : i ≤ max_int = omega arith in
    let a : ltb max_int i ≡ false = ground arith in
    let b : ltb ((max_int - i) / w) digit ≡ false = ground arith in rw (a, b)

weight_fits : (w b : ℕ) → 1 ≤ b → w * b ≤ max_int → ltb (max_int / b) w ≡ false
weight_fits w b p h = let fits : w ≤ max_int / b = (le-div_iff_mul-le p).1 h in ground arith

-- Enough fuel: every number has digits.
pub write_number_total :
    (fuel bias q k : ℕ) → q < fuel → (s : Str) × (write_number fuel bias q k ≡ ok s)
unfolding write_number
write_number_total zero bias q k h = absurd (omega arith)
write_number_total (suc fuel) bias q k h = elim (Bool-cases (ltb q (threshold k bias))) [
  | inl e ↦ (digit_to_basic q ∷ [], rw e)
  | inr e ↦
      let t = threshold k bias in
      let (lo, hi) = threshold_bounds k bias in
      let (s, r) =
        write_number_total fuel bias ((q - t) / (36 - t)) (k + 36)
          (smaller q t fuel lo hi (ltb→le _ _ e) h) in
      (digit_to_basic (t + (q - t) % (36 - t)) ∷ s, rw (e, r))
]

-- The last digit.
read_last :
    (bias i w k q : ℕ) (rest : Str)
    → q < threshold k bias
    → i + q * w ≤ max_int
    → 1 ≤ w
    → read_number bias i w k (digit_to_basic q ∷ rest) ≡ ok (i + q * w, rest)
unfolding read_number
read_last bias i w k q rest h fits p =
    let (lo, hi) = threshold_bounds k bias in
    let valid : leb 36 q ≡ false = ground arith in
    rw (
      basic_to_digit-digit_to_basic q (omega (arith, hi)),
      valid,
      no_overflow i w q fits p,
      lt→ltb _ _ h,
    )

-- A digit with others behind it.
read_more :
    (bias i w k d : ℕ) (rest : Str)
    → threshold k bias ≤ d
    → d < 36
    → i + d * w ≤ max_int
    → w * (36 - threshold k bias) ≤ max_int
    → 1 ≤ w
    → read_number bias i w k (digit_to_basic d ∷ rest)
      ≡ read_number bias (i + d * w) (w * (36 - threshold k bias)) (k + 36) rest
unfolding read_number
read_more bias i w k d rest h small fits weight p =
    let (lo, hi) = threshold_bounds k bias in
    let valid : leb 36 d ≡ false = ground arith in
    let last : ltb d (threshold k bias) ≡ false = ground arith in
    rw (
      basic_to_digit-digit_to_basic d small,
      valid,
      no_overflow i w d fits p,
      last,
      weight_fits w (36 - threshold k bias) (omega (arith, hi)) weight,
    )

abbrev digit_of : ℕ → ℕ → ℕ
digit_of q t = t + (q - t) % (36 - t)

abbrev later : ℕ → ℕ → ℕ
later q t = (q - t) / (36 - t)

-- A number is its first digit and the rest at the next weight.
module _ (q t w : ℕ) (lo : 1 ≤ t) (hi : t ≤ 26) (le : t ≤ q) where
  parts : q ≡ digit_of q t + later q t * (36 - t)
  parts = omega (arith, div-add-mod' (q - t) (36 - t))

  weighted : q * w ≡ digit_of q t * w + later q t * (w * (36 - t))
  weighted = omega (arith, ap (λ (x : ℕ). x * w) parts)

  digit_small : digit_of q t < 36
  digit_small = omega (arith, mod-lt (q - t) {m = 36 - t} (omega arith))

  weight_small : w * (36 - t) ≤ 36 * (q * w)
  weight_small =
      let one : 1 ≤ q = omega arith in
      let le36 : 36 - t ≤ 36 = omega arith in
      omega (arith, mul-le-mul_left w le36, mul-le-mul_right w one)

write_number-last :
    (fuel bias q k : ℕ) {s : Str}
    → q < threshold k bias
    → write_number (suc fuel) bias q k ≡ ok s
    → s ≡ digit_to_basic q ∷ []
unfolding write_number
write_number-last fuel bias q k h e = let t = lt→ltb q (threshold k bias) h in ground arith

-- What `write_number` gives when the number has more digits.
write_number-more :
    (fuel bias q k : ℕ) {s : Str}
    → ltb q (threshold k bias) ≡ false
    → write_number (suc fuel) bias q k ≡ ok s
    → let t = threshold k bias in
      (r : Str) × (write_number fuel bias (later q t) (k + 36) ≡ ok r)
      × (s ≡ digit_to_basic (digit_of q t) ∷ r)
unfolding write_number
write_number-more fuel bias q k {s} h e =
    rest (write_number fuel bias (later q (threshold k bias)) (k + 36)) (rw h at e)
  where
    rest :
        (m : Result Str)
        → (m >>= λ r. ok (digit_to_basic (digit_of q (threshold k bias)) ∷ r)) ≡ ok s
        → (r : Str) × (m ≡ ok r) × (s ≡ digit_to_basic (digit_of q (threshold k bias)) ∷ r)
    rest (ok r) e = (r, refl, cc)
    rest (err x) e = cc

write_number-zero : (bias q k : ℕ) {s : Str} → write_number 0 bias q k ≢ ok s
unfolding write_number
write_number-zero bias q k e = cc

read-write :
    (fuel bias q k i w : ℕ) (s rest : Str)
    → write_number fuel bias q k ≡ ok s
    → 1 ≤ w
    → i + 36 * (q * w) ≤ max_int
    → read_number bias i w k (s ++ rest) ≡ ok (i + q * w, rest)
read-write zero bias q k i w s rest e p h = absurd (write_number-zero bias q k e)
read-write (suc fuel) bias q k i w s rest e p h = elim (Bool-cases (ltb q (threshold k bias))) [
  | inl last ↦
      ap (λ (d : Str). read_number bias i w k (d ++ rest))
        (write_number-last fuel bias q k (ltb→lt _ _ last) e)
      ∙ read_last bias i w k q rest (ltb→lt _ _ last) (omega arith) p
  | inr more ↦
      let t = threshold k bias in
      let (lo, hi) = threshold_bounds k bias in
      let le : t ≤ q = ltb→le _ _ more in
      let (r, written, shape) = write_number-more fuel bias q k more e in
      let split = weighted q t w lo hi le in
      let heavier : 1 ≤ w * (36 - t) = one-le-mul p (omega arith) in
      ap (λ (d : Str). read_number bias i w k (d ++ rest)) shape
      ∙ read_more bias i w k (digit_of q t) (r ++ rest) (omega arith) (digit_small q t w lo hi le)
          (omega (arith, split)) (omega (arith, weight_small q t w lo hi le)) p
      ∙ read-write fuel bias (later q t) (k + 36) (i + digit_of q t * w) (w * (36 - t)) r rest
          written heavier (omega (arith, split))
      ∙ ap (λ (n : ℕ). ok (n, rest)) (omega (arith, split))
]

-- The digits that `encode` writes for `q` exist, and `decode` reads them, from any `i` with i + 36 q at
-- most 0x7fffffff: it adds `q` to `i` and leaves the rest of the input.
pub read_number-write_number :
    (bias q i : ℕ) (rest : Str)
    → i + 36 * q ≤ max_int
    → (s : Str) × (write_number (q + 1) bias q 36 ≡ ok s)
      × (read_number bias i 1 36 (s ++ rest) ≡ ok (i + q, rest))
read_number-write_number bias q i rest h =
    let (s, e) = write_number_total (q + 1) bias q 36 (omega arith) in
    (
      s,
      e,
      read-write (q + 1) bias q 36 i 1 s rest e (omega arith) (omega arith)
          ∙ ap (λ (n : ℕ). ok (n, rest)) (omega arith),
    )
