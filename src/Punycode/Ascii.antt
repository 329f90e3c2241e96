-- ===== src/Punycode/Ascii.antt =====
-- The output of `encode` of punycode.js is ASCII.
use jaseci.Prelude.{
  ℕ, zero, suc, ◌+◌, ◌-◌, ◌*◌, ◌/◌, ◌%◌, ◌<◌, ◌≤◌, ◌&&◌, ◌||◌, List, [], ◌∷◌, ltb, ltb→lt, ◌==◌,
  if◌then◌else◌, if_both, Bool-cases, inl, inr, Str, length, arith, All, All-append,
}
use jaseci.Punycode.{
  overflow, out_of_fuel, Result, ok, err, ◌>>=◌, max_int, write_number, threshold, digit_to_basic,
  next_point, Progress, emit_points, encode_loop, basic_points, encode, ucs2_decode,
}
use jaseci.Punycode.Numbers.{threshold_bounds}

abbrev pub IsAscii : Str → Type 0
IsAscii = All (λ c. c < 0x80)

-- What a result satisfies, if it is no error.
abbrev pub Holds {ℓ} : {A : Type ℓ} → (A → Type 0) → Result A → Type 0
Holds P (ok a) = P a
Holds P (err e) = Unit

pub >>=-Holds {ℓ κ} :
    {A : Type ℓ} {B : Type κ} (P : A → Type 0) (Q : B → Type 0) (m : Result A) (f : A → Result B)
    → Holds P m
    → ((a : A) → P a → Holds Q (f a))
    → Holds Q (m >>= f)
>>=-Holds P Q (ok a) f h k = k a h
>>=-Holds P Q (err e) f h k = tt

digit_to_basic-ascii : (d : ℕ) → d < 36 → digit_to_basic d < 0x80
unfolding digit_to_basic
digit_to_basic-ascii d h = ground arith

digit-small : (t q : ℕ) → 1 ≤ t → t ≤ 26 → t + (q - t) % (36 - t) < 36
digit-small t q h k = ground arith

write_number-IsAscii : (fuel bias q k : ℕ) → Holds IsAscii (write_number fuel bias q k)
unfolding write_number
write_number-IsAscii zero bias q k = tt
write_number-IsAscii (suc fuel) bias q k =
    let t = threshold k bias in
    let (lo, hi) = threshold_bounds k bias in
    let more = write_number fuel bias ((q - t) / (36 - t)) (k + 36) in
    elim (Bool-cases (ltb q t)) [
      | inl e ↦ rw e (digit_to_basic-ascii q (omega (arith, ltb→lt q t e)), tt)
      | inr e ↦ rw e (
          >>=-Holds IsAscii IsAscii more _
            (write_number-IsAscii fuel bias ((q - t) / (36 - t)) (k + 36))
            λ s small. (digit_to_basic-ascii _ (digit-small t q lo hi), small))
    ]

abbrev Ascii : Progress → Type 0
Ascii p = IsAscii p.output

emit_points-Ascii :
    (count n : ℕ) (points : List ℕ) (p : Progress)
    → Ascii p
    → Holds Ascii (emit_points count n points p)
unfolding emit_points
emit_points-Ascii count n [] p h = h
emit_points-Ascii count n (c ∷ points) p h =
    let delta = if ltb c n then p.delta + 1 else p.delta in
    if_both (Holds Ascii) (ltb c n && ltb max_int delta) (err overflow) _ tt (
      if_both (Holds Ascii) (c == n) _ (emit_points count n points (record p { delta = delta }))
        (>>=-Holds IsAscii Ascii (write_number (delta + 1) p.bias delta 36) _
          (write_number-IsAscii (delta + 1) p.bias delta 36)
          λ digits small. emit_points-Ascii count n points _ (All-append _ p.output digits h small))
        (emit_points-Ascii count n points (record p { delta = delta }) h))

encode_loop-Ascii :
    (fuel count n : ℕ) (points : List ℕ) (p : Progress)
    → Ascii p
    → Holds IsAscii (encode_loop fuel count points n p)
unfolding encode_loop
encode_loop-Ascii zero count n points p h =
    if_both (Holds IsAscii) (ltb p.h (length points)) (err out_of_fuel) (ok p.output) tt h
encode_loop-Ascii (suc fuel) count n points p h =
    let m = next_point n points max_int in
    let q = record p { delta = p.delta + (m - n) * (p.h + 1) } in
    if_both (Holds IsAscii) (ltb p.h (length points)) _ (ok p.output)
      (if_both (Holds IsAscii)
        (ltb max_int p.delta || ltb ((max_int - p.delta) / (p.h + 1)) (m - n)) (err overflow) _ tt
        (>>=-Holds Ascii IsAscii (emit_points count m points q) _
          (emit_points-Ascii count m points q h)
          λ r small.
            encode_loop-Ascii fuel count (m + 1) points (record r { delta = r.delta + 1 }) small))
      h

basic_points-IsAscii : (points : List ℕ) → IsAscii (basic_points points)
unfolding basic_points
basic_points-IsAscii [] = tt
basic_points-IsAscii (c ∷ points) = elim (Bool-cases (ltb c 0x80)) [
  | inl e ↦ rw e (ltb→lt c 0x80 e, basic_points-IsAscii points)
  | inr e ↦ rw e (basic_points-IsAscii points)
]

-- Whatever `encode` returns is ASCII.
pub encode-IsAscii : (input : Str) → Holds IsAscii (encode input)
unfolding encode
encode-IsAscii input =
    let points = ucs2_decode input in
    let basic = basic_points points in
    let small = basic_points-IsAscii points in
    encode_loop-Ascii (length points) (length basic) 128 points _ (
      if_both IsAscii (ltb 0 (length basic)) _ basic (All-append _ basic _ small (omega arith, tt))
        small)
