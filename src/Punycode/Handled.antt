-- ===== src/Punycode/Handled.antt =====
-- `encode` handles every code point, so that its loop ends.
use jaseci.Prelude.{
  ℕ, zero, suc, ◌+◌, ◌-◌, ◌*◌, ◌/◌, ◌<◌, ◌≤◌, Bool, true, false, ◌&&◌, ◌||◌, List, [], ◌∷◌, ◌++◌,
  ltb, le→ltb, ltb→lt, ◌==◌, if◌then◌else◌, if_both, Bool-cases, inl, inr, Str, length, ◌≡◌, ◌≢◌,
  refl, ap, subst, ◌∙◌, arith, All, Option, none, some, get_elem?,
}
use jaseci.Punycode.{
  overflow, out_of_fuel, Result, ok, err, ◌>>=◌, max_int, adapt, write_number, next_point, Progress,
  emit_points, encode_loop, basic_points, encode, ucs2_decode, ucs2_from, ucs2_point,
}
use jaseci.Punycode.Numbers.{write_number_total}
use jaseci.Punycode.Fuel.{NeverStuck}
use jaseci.Punycode.Ucs2.{IsUnit}
use jaseci.Punycode.Counts.{
  count_below, count_at, count_below-suc, count_below-gap, next_point-ge, next_point-All,
  next_point-hit, count_at-bound, count_below-full,
}

-- What `emit_points` leaves: `h` grew to the number given, or an error of the source.
abbrev After : ℕ → Result Progress → Type 0
After h (ok q) = q.h ≡ h
After h (err e) = e ≢ out_of_fuel

tests-After :
    (h : ℕ) (written passed : Result Progress) (a b : Bool)
    → (b ≡ true → After h written)
    → (b ≡ false → After h passed)
    → After h (if a then err overflow else if b then written else passed)
tests-After h written passed true b j k = λ e. cc
tests-After h written passed false true j k = j refl
tests-After h written passed false false j k = k refl

count_at-step :
    (b : Bool) (c n h : ℕ) (points : List ℕ)
    → (c == n) ≡ b
    → h + (if b then 1 else 0) + count_at n points ≡ h + count_at n (c ∷ points)
count_at-step b c n h points e = rw e (omega arith)

emit_points-After :
    (count n : ℕ) (points : List ℕ) (p : Progress)
    → After (p.h + count_at n points) (emit_points count n points p)
unfolding emit_points
emit_points-After count n [] p = omega arith
emit_points-After count n (c ∷ points) p =
    let delta = if ltb c n then p.delta + 1 else p.delta in
    let goal = p.h + count_at n (c ∷ points) in
    let next : Str → Progress = λ digits. record {
      output = p.output ++ digits;
      delta = 0;
      bias = adapt delta (p.h + 1) (p.h == count);
      h = p.h + 1;
    } in
    let (digits, e) = write_number_total (delta + 1) p.bias delta 36 (omega arith) in
    let written =
      write_number (delta + 1) p.bias delta 36 >>= λ s. emit_points count n points (next s) in
    let passed = emit_points count n points (record p { delta = delta }) in
    tests-After goal written passed (ltb c n && ltb max_int delta) (c == n)
      (λ at. rw e (
        subst (λ h. After h (emit_points count n points (next digits)))
          (count_at-step true c n p.h points at) (emit_points-After count n points (next digits))))
      (λ off.
        subst (λ h. After h passed)
          (ap (◌+ count_at n points) (omega arith) ∙ count_at-step false c n p.h points off)
          (emit_points-After count n points (record p { delta = delta })))

>>=-After :
    (h : ℕ) (m : Result Progress) (f : Progress → Result Str)
    → After h m
    → ((q : Progress) → q.h ≡ h → NeverStuck (f q))
    → NeverStuck (m >>= f)
>>=-After h (ok q) f a k = k q a
>>=-After h (err e) f a k = λ x. a (cc)

-- The round's point is one of the code points, unless all are handled.
round-hit :
    (n : ℕ) (points : List ℕ)
    → All (λ c. c < max_int) points
    → count_below n points < length points
    → 0 < count_at (next_point n points max_int) points
round-hit n points small h = elim (next_point-hit n points max_int) [
  | inl same ↦ absurd (
      let full =
        count_below-full max_int n points small
          (subst (λ m. All (λ c. n ≤ c → m ≤ c) points) same (next_point-All n points max_int)) in
      omega arith)
  | inr hit ↦ hit
]

encode_loop-NeverStuck :
    (fuel count n : ℕ) (points : List ℕ) (p : Progress)
    → n ≤ max_int
    → All (λ c. c < max_int) points
    → p.h ≡ count_below n points
    → length points ≤ p.h + fuel
    → NeverStuck (encode_loop fuel count points n p)
unfolding encode_loop
encode_loop-NeverStuck zero count n points p le small h enough =
    rw (le→ltb p.h (length points) (omega arith)) λ e. cc
encode_loop-NeverStuck (suc fuel) count n points p le small h enough =
    elim (Bool-cases (ltb p.h (length points))) [
      | inr e ↦ rw e λ x. cc
      | inl e ↦ rw e (
          let m = next_point n points max_int in
          let hit =
            round-hit n points small
              (subst (λ k. k < length points) h (ltb→lt p.h (length points) e)) in
          let low = next_point-ge n points max_int le in
          let gap = count_below-gap n m points low (next_point-All n points max_int) in
          let step = count_below-suc m points in
          let top = count_at-bound max_int m points small hit in
          if_both NeverStuck (ltb max_int p.delta || ltb ((max_int - p.delta) / (p.h + 1)) (m - n))
            (err overflow) _ (λ x. cc)
            (>>=-After (p.h + count_at m points) _ _
              (emit_points-After count m points
                (record p { delta = p.delta + (m - n) * (p.h + 1) }))
              λ q grown.
                encode_loop-NeverStuck fuel count (m + 1) points (record q { delta = q.delta + 1 })
                  (omega arith) small (omega arith) (omega arith)))
    ]

-- A pair stands for a code point of at most 21 bits.
ucs2_point-small : (c : ℕ) (next : Option ℕ) → IsUnit c → (ucs2_point c next).0 < max_int
unfolding ucs2_point
ucs2_point-small c none h = omega arith
ucs2_point-small c (some lo) h = ground (arith, h)

ucs2_from-small : (skip : ℕ) (s : Str) → All IsUnit s → All (λ c. c < max_int) (ucs2_from skip s)
unfolding ucs2_from
ucs2_from-small zero [] h = tt
ucs2_from-small (suc skip) [] h = tt
ucs2_from-small (suc skip) (_ ∷ s) h = ucs2_from-small skip s h.1
ucs2_from-small zero (c ∷ s) h =
    (ucs2_point-small c (get_elem? s 0) h.0, ucs2_from-small (ucs2_point c (get_elem? s 0)).1 s h.1)

basic_points-count : (points : List ℕ) → length (basic_points points) ≡ count_below 128 points
unfolding basic_points
basic_points-count [] = refl
basic_points-count (c ∷ points) = elim (Bool-cases (ltb c 128)) [
  | inl e ↦ rw e (omega (arith, basic_points-count points))
  | inr e ↦ rw e (omega (arith, basic_points-count points))
]

-- `encode` returns a string, or one of the errors of the source, on every string of 16-bit units: no
-- loop runs out of fuel.
pub encode-NeverStuck : (input : Str) → All IsUnit input → NeverStuck (encode input)
unfolding encode ucs2_decode
encode-NeverStuck input h =
    let points = ucs2_from 0 input in
    encode_loop-NeverStuck (length points) _ 128 points _ (omega arith) (ucs2_from-small 0 input h)
      (basic_points-count points) (omega arith)
