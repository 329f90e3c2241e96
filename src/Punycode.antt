-- ===== src/Punycode.antt =====
-- jac/js_engine/engine/src/builtins/js/punycode.js. The RangeErrors of `_error` are values of
-- `Error`. A loop that consumes no list takes fuel, and running out of it is an error of its own.
pub mod Ucs2
pub mod Numbers
pub mod Fuel
mod Counts
pub mod Handled
pub mod Ascii
pub mod Domains
use jaseci.Prelude.{
  ℕ, zero, suc, ◌+◌, ◌-◌, ◌*◌, ◌/◌, ◌%◌, Bool, true, false, ◌&&◌, ◌||◌, List, [], ◌∷◌, ◌++◌, map,
  Option, none, some, ltb, leb, ◌==◌, within, if◌then◌else◌, Str, codes, str_eq, length, get_elem?,
  take, drop, split, join,
}

pub data Error : Type 0 where
  not_basic invalid_input overflow out_of_fuel : Error

pub data Result {ℓ} (A : Type ℓ) : Type ℓ where
  ok : A → Result A
  err : Error → Result A

infixl 5 ◌>>=◌
abbrev pub ◌>>=◌ {ℓ κ} : {A : Type ℓ} {B : Type κ} → Result A → (A → Result B) → Result B
ok a >>= f = f a
err e >>= f = err e

abbrev pub delimiter : ℕ
delimiter = b'-'

abbrev pub max_int : ℕ
max_int = 0x7fffffff

-- The loop of `_adapt`.
unfoldable pub adapt_loop : ℕ → ℕ → ℕ → ℕ × ℕ
adapt_loop zero delta k = (delta, k)
adapt_loop (suc fuel) delta k =
    let more = adapt_loop fuel (delta / 35) (k + 36) in
    if ltb ((36 - 1) * 26 / 2) delta then more else (delta, k)

unfoldable pub adapt : ℕ → ℕ → Bool → ℕ
unfolding adapt_loop
adapt delta num_points first_time =
    let scaled = if first_time then delta / 700 else delta / 2 in
    let start = scaled + scaled / num_points in
    let (rest, k) = adapt_loop start start 0 in k + (36 - 1 + 1) * rest / (rest + 38)

unfoldable pub basic_to_digit : ℕ → ℕ
basic_to_digit cp =
    if within 48 57 cp
    then cp - 22
    else if within 65 90 cp
    then cp - 65
    else if within 97 122 cp
    then cp - 97
    else 36

unfoldable pub digit_to_basic : ℕ → ℕ
digit_to_basic digit = if ltb digit 26 then digit + 97 else digit - 26 + 48

-- One round of the loop of `_ucs2decode`: the code point, and whether a low surrogate was taken
-- with it. `none` is the end of the string, where the guard `i + 1 < len` fails.
unfoldable pub ucs2_point : ℕ → Option ℕ → ℕ × ℕ
ucs2_point c none = (c, 0)
ucs2_point c (some lo) =
    if within 0xd800 0xdbff c && within 0xdc00 0xdfff lo
    then (0x10000 + (c - 0xd800) * 1024 + (lo - 0xdc00), 1)
    else (c, 0)

-- The loop, on what is left of the string, of which `skip` units are taken already.
unfoldable pub ucs2_from : ℕ → Str → List ℕ
unfolding ucs2_point
ucs2_from skip [] = []
ucs2_from (suc skip) (_ ∷ s) = ucs2_from skip s
ucs2_from zero (c ∷ s) =
    let (point, extra) = ucs2_point c (get_elem? s 0) in point ∷ ucs2_from extra s

unfoldable pub ucs2_decode : Str → List ℕ
unfolding ucs2_from
ucs2_decode = ucs2_from 0

-- `String.fromCharCode` keeps 16 bits.
unfoldable pub ucs2_encode : List ℕ → Str
ucs2_encode [] = []
ucs2_encode (cp ∷ points) =
    (if ltb 0xffff cp
      then ((0xd800 + (cp - 0x10000) / 1024) % 0x10000)
        ∷ ((0xdc00 + (cp - 0x10000) % 1024) % 0x10000)
        ∷ []
      else (cp % 0x10000) ∷ [])
    ++ ucs2_encode points

-- The threshold `t` of a digit position.
unfoldable pub threshold : ℕ → ℕ → ℕ
threshold k bias = if leb k bias then 1 else if leb (bias + 26) k then 26 else k - bias

-- The inner loop of `decode`: the new `i`, and what is left of the input. A negative
-- 0x7fffffff - i is below every digit.
unfoldable pub read_number : ℕ → ℕ → ℕ → ℕ → Str → Result (ℕ × Str)
unfolding threshold basic_to_digit
read_number bias i w k [] = err invalid_input
read_number bias i w k (c ∷ rest) =
    let digit = basic_to_digit c in
    let t = threshold k bias in
    let more = read_number bias (i + digit * w) (w * (36 - t)) (k + 36) rest in
    if leb 36 digit
    then err invalid_input
    else if ltb max_int i || ltb ((max_int - i) / w) digit
    then err overflow
    else if ltb digit t
    then ok (i + digit * w, rest)
    else if ltb (max_int / (36 - t)) w
    then err overflow
    else more

-- `output.splice(i, 0, n)`
unfoldable pub insert_at : ℕ → ℕ → List ℕ → List ℕ
insert_at i n output = take i output ++ (n ∷ drop i output)

-- The outer loop of `decode`; every round reads a character at least.
unfoldable pub decode_loop : ℕ → List ℕ → ℕ → ℕ → ℕ → Str → Result (List ℕ)
unfolding read_number insert_at adapt
decode_loop fuel output i n bias [] = ok output
decode_loop zero output i n bias (_ ∷ _) = err out_of_fuel
decode_loop (suc fuel) output oldi n bias (c ∷ input) =
    read_number bias oldi 1 36 (c ∷ input) >>= λ r.
    let out = length output + 1 in
    let n' = n + r.0 / out in
    let i = r.0 % out in
    let bias' = adapt (r.0 - oldi) out (oldi == 0) in
    let more = decode_loop fuel (insert_at i n' output) (i + 1) n' bias' r.1 in
    if ltb (max_int - n) (r.0 / out) then err overflow else more

-- The index of the last delimiter, or 0.
unfoldable pub find_basic : Str → ℕ → ℕ → ℕ
find_basic [] j basic = basic
find_basic (c ∷ input) j basic = find_basic input (j + 1) (if c == delimiter then j else basic)

-- The loop that copies the basic code points.
unfoldable pub copy_basic : Str → Result (List ℕ)
copy_basic [] = ok []
copy_basic (cp ∷ input) =
    if leb 0x80 cp then err not_basic else copy_basic input >>= λ output. ok (cp ∷ output)

unfoldable pub decode : Str → Result Str
unfolding find_basic copy_basic decode_loop ucs2_encode
decode input =
    let basic = find_basic input 0 0 in
    let index = if ltb 0 basic then basic + 1 else 0 in
    copy_basic (take basic input) >>= λ output.
    decode_loop (length input) output 0 128 72 (drop index input) >>= λ points.
    ok (ucs2_encode points)

-- The innermost loop of `encode` and the last digit: the digits of `q`.
unfoldable pub write_number : ℕ → ℕ → ℕ → ℕ → Result Str
unfolding threshold digit_to_basic
write_number zero bias q k = err out_of_fuel
write_number (suc fuel) bias q k =
    let t = threshold k bias in
    let more = write_number fuel bias ((q - t) / (36 - t)) (k + 36) in
    if ltb q t
    then ok (digit_to_basic q ∷ [])
    else more >>= λ s. ok (digit_to_basic (t + (q - t) % (36 - t)) ∷ s)

-- The loop that looks for the smallest code point that is at least `n`.
unfoldable pub next_point : ℕ → List ℕ → ℕ → ℕ
next_point n [] m = m
next_point n (cp ∷ points) m = next_point n points (if leb n cp && ltb cp m then cp else m)

-- What the loops of `encode` change.
pub record Progress : Type 0 where
  pub output : Str
  pub delta : ℕ
  pub bias : ℕ
  pub h : ℕ

-- The loop over the code points for one value of `n`.
unfoldable pub emit_points : ℕ → ℕ → List ℕ → Progress → Result Progress
unfolding write_number adapt
emit_points basic_count n [] p = ok p
emit_points basic_count n (cp ∷ points) p =
    let delta = if ltb cp n then p.delta + 1 else p.delta in
    let written = write_number (delta + 1) p.bias delta 36 >>= λ digits.
    emit_points basic_count n points (record {
      output = p.output ++ digits;
      delta = 0;
      bias = adapt delta (p.h + 1) (p.h == basic_count);
      h = p.h + 1;
    }) in
    let passed = emit_points basic_count n points (record p { delta = delta }) in
    if ltb cp n && ltb max_int delta then err overflow else if cp == n then written else passed

-- The outer loop of `encode`; every round handles a code point at least. A negative
-- 0x7fffffff - delta is below every m - n.
unfoldable pub encode_loop : ℕ → ℕ → List ℕ → ℕ → Progress → Result Str
unfolding next_point emit_points
encode_loop zero basic_count points n p =
    if ltb p.h (length points) then err out_of_fuel else ok p.output
encode_loop (suc fuel) basic_count points n p =
    let m = next_point n points max_int in
    let delta = p.delta + (m - n) * (p.h + 1) in
    let round = emit_points basic_count m points (record p { delta = delta }) >>= λ q.
    encode_loop fuel basic_count points (m + 1) (record q { delta = q.delta + 1 }) in
    if ltb p.h (length points)
    then (if ltb max_int p.delta || ltb ((max_int - p.delta) / (p.h + 1)) (m - n)
        then err overflow
        else round)
    else ok p.output

-- The basic code points of the input.
unfoldable pub basic_points : List ℕ → Str
basic_points [] = []
basic_points (cp ∷ points) =
    let rest = basic_points points in if ltb cp 0x80 then cp ∷ rest else rest

unfoldable pub encode : Str → Result Str
unfolding basic_points encode_loop ucs2_decode
encode input =
    let points = ucs2_decode input in
    let basic = basic_points points in
    let count = length basic in
    encode_loop (length points) count points 128 (record {
      output = if ltb 0 count then basic ++ (delimiter ∷ []) else basic;
      delta = 0;
      bias = 72;
      h = count;
    })
