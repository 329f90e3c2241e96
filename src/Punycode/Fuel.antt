-- ===== src/Punycode/Fuel.antt =====
-- The loops of punycode.js end: no fuel given to them runs out.
use jaseci.Prelude.{
  ℕ, zero, suc, ◌+◌, ◌-◌, ◌*◌, ◌/◌, ◌<◌, ◌≤◌, Bool, true, false, ◌||◌, List, [], ◌∷◌, ltb, ltb→le,
  ltb→lt, leb, if◌then◌else◌, Bool-cases, inl, inr, Str, length, length-drop, drop, take, ◌≢◌,
  arith, if_both,
}
use jaseci.Punycode.{
  not_basic, invalid_input, overflow, out_of_fuel, Result, ok, err, ◌>>=◌, max_int, adapt_loop,
  basic_to_digit, threshold, read_number, decode_loop, find_basic, copy_basic, decode,
}

-- The loop of `_adapt` ends by its test, with a delta of at most 455, if the fuel is at least its first
-- delta.
pub adapt_loop-ends : (fuel delta k : ℕ) → delta ≤ fuel → (adapt_loop fuel delta k).0 ≤ 455
unfolding adapt_loop
adapt_loop-ends zero delta k h = omega arith
adapt_loop-ends (suc fuel) delta k h = elim (Bool-cases (ltb 455 delta)) [
  | inl e ↦ rw e (adapt_loop-ends fuel (delta / 35) (k + 36) (omega (arith, ltb→lt 455 delta e)))
  | inr e ↦ rw e (ltb→le 455 delta e)
]

-- What a read leaves is shorter, and it needs no fuel.
abbrev Shorter : ℕ → Result (ℕ × Str) → Type 0
Shorter n (ok r) = length r.1 < n
Shorter n (err e) = e ≢ out_of_fuel

Shorter-mono : (n m : ℕ) (r : Result (ℕ × Str)) → n ≤ m → Shorter n r → Shorter m r
Shorter-mono n m (ok r) h k = omega arith
Shorter-mono n m (err e) h k = k

-- The four tests of a round of `read_number`.
tests-Shorter :
    (n : ℕ) (last more : Result (ℕ × Str)) (a b c d : Bool)
    → Shorter n last
    → Shorter n more
    → Shorter n (
        if a
        then err invalid_input
        else if b
        then err overflow
        else if c
        then last
        else if d
        then err overflow
        else more)
tests-Shorter n last more true b c d h k = λ e. cc
tests-Shorter n last more false true c d h k = λ e. cc
tests-Shorter n last more false false true d h k = h
tests-Shorter n last more false false false true h k = λ e. cc
tests-Shorter n last more false false false false h k = k

read_number-Shorter : (bias i w k : ℕ) (s : Str) → Shorter (length s) (read_number bias i w k s)
unfolding read_number
read_number-Shorter bias i w k [] = λ e. cc
read_number-Shorter bias i w k (c ∷ s) =
    let digit = basic_to_digit c in
    let t = threshold k bias in
    let more = read_number bias (i + digit * w) (w * (36 - t)) (k + 36) s in
    tests-Shorter (suc (length s)) (ok (i + digit * w, s)) more (leb 36 digit)
      (ltb max_int i || ltb ((max_int - i) / w) digit) (ltb digit t) (ltb (max_int / (36 - t)) w)
      (omega arith)
      (Shorter-mono (length s) (suc (length s)) more (omega arith)
        (read_number-Shorter bias (i + digit * w) (w * (36 - t)) (k + 36) s))

abbrev pub NeverStuck {ℓ} : {A : Type ℓ} → Result A → Type ℓ
NeverStuck r = r ≢ err out_of_fuel

>>=-Shorter :
    (n : ℕ) (m : Result (ℕ × Str)) (f : ℕ × Str → Result (List ℕ))
    → Shorter n m
    → ((r : ℕ × Str) → length r.1 < n → NeverStuck (f r))
    → NeverStuck (m >>= f)
>>=-Shorter n (ok r) f h k = k r h
>>=-Shorter n (err e) f h k = λ x. h (cc)

decode_loop-NeverStuck :
    (fuel : ℕ) (output : List ℕ) (i n bias : ℕ) (input : Str)
    → length input ≤ fuel
    → NeverStuck (decode_loop fuel output i n bias input)
unfolding decode_loop
decode_loop-NeverStuck zero output i n bias [] h = λ e. cc
decode_loop-NeverStuck zero output i n bias (c ∷ input) h = absurd (omega arith)
decode_loop-NeverStuck (suc fuel) output i n bias [] h = λ e. cc
decode_loop-NeverStuck (suc fuel) output i n bias (c ∷ input) h =
    >>=-Shorter (suc (length input)) _ _ (read_number-Shorter bias i 1 36 (c ∷ input)) λ r short.
      if_both NeverStuck _ (err overflow) _ (λ e. cc)
        (decode_loop-NeverStuck fuel _ _ _ _ r.1 (omega arith))

copy_basic-NeverStuck : (input : Str) → NeverStuck (copy_basic input)
unfolding copy_basic
copy_basic-NeverStuck [] = λ e. cc
copy_basic-NeverStuck (c ∷ input) =
    if_both NeverStuck _ (err not_basic) _ (λ e. cc)
      (keep (copy_basic input) (copy_basic-NeverStuck input))
  where
    keep : (m : Result (List ℕ)) → NeverStuck m → NeverStuck (m >>= λ output. ok (c ∷ output))
    keep (ok r) h = λ e. cc
    keep (err x) h = λ e. h (cc)

pub >>=-NeverStuck :
    {A B : Type 0} (m : Result A) (f : A → Result B)
    → NeverStuck m
    → ((a : A) → NeverStuck (f a))
    → NeverStuck (m >>= f)
>>=-NeverStuck (ok a) f h k = k a
>>=-NeverStuck (err e) f h k = λ x. h (cc)

-- `decode` returns a string, or one of the errors of the source, on every input: no loop runs out of
-- fuel.
pub decode-NeverStuck : (input : Str) → NeverStuck (decode input)
unfolding decode
decode-NeverStuck input =
    let basic = find_basic input 0 0 in
    let index = if ltb 0 basic then basic + 1 else 0 in
    >>=-NeverStuck _ _ (copy_basic-NeverStuck (take basic input)) λ output.
      >>=-NeverStuck _ _
        (decode_loop-NeverStuck (length input) output 0 128 72 (drop index input)
          (omega (arith, length-drop index input)))
        λ points. λ e. cc
