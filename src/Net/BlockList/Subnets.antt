-- ===== src/Net/BlockList/Subnets.antt =====
-- Which IPv4 addresses the rules of BlockList in net.js block.
use jaseci.Prelude.{
  ℕ, ◌+◌, ◌-◌, ◌*◌, ◌/◌, ◌^◌, ◌≤◌, ◌<◌, Bool, true, false, ◌&&◌, ◌||◌, List, [], ◌∷◌, ◌++◌, some,
  leb, ◌==◌, Str, codes, ◌≡◌, refl, ap, ap₂, sym, ◌∙◌, arith, le→ltb, Bool-cases, inl, inr,
}
use native.Mathlib.Nat.{one-le-pow, le-div_iff_mul-le, div-lt_iff_lt-mul}
use jaseci.Numerals.{to_string}
use jaseci.Net.{ipv4_to_int, int_to_ipv4}
use jaseci.Net.BlockList.Defs.{
  ipv4, string, undefined, natural, Result, ok, ◌>>=◌, four, Rule, first_of, last_of, addr_and_type,
  integer_prefix, subnet_rule, add_subnet, range_rule, add_range, end_of_range, check_args,
  check_address, check, normalize_ip_type,
}
use jaseci.Net.BlockList.Checks.{check_address-four}

leb→le : (a b : ℕ) → leb a b ≡ true → a ≤ b
leb→le a b h = ground arith

le→leb : (a b : ℕ) → a ≤ b → leb a b ≡ true
le→leb a b h = ground arith

leb→lt : (a b : ℕ) → leb a b ≡ false → b < a
leb→lt a b h = ground arith

lt→leb : (a b : ℕ) → b < a → leb a b ≡ false
lt→leb a b h = ground arith

leb_iff : (a b c d : ℕ) → (a ≤ b → c ≤ d) → (c ≤ d → a ≤ b) → leb a b ≡ leb c d
leb_iff a b c d f g = elim (Bool-cases (leb a b)) [
  | inl e ↦ e ∙ sym (le→leb c d (f (leb→le a b e)))
  | inr e ↦ elim (Bool-cases (leb c d)) [
    | inl e' ↦ absurd (omega (arith, leb→lt a b e, g (leb→le c d e')))
    | inr e' ↦ e ∙ sym e'
  ]
]

leb-leb : (q r : ℕ) → (leb q r && leb r q) ≡ (r == q)
leb-leb q r = ground arith

-- Between the ends of a block there are the numbers with the quotient of the block.
leb-block :
    (m q size : ℕ)
    → 0 < size
    → (leb (q * size) m && leb m (q * size + (size - 1))) ≡ (m / size == q)
leb-block m q size h =
    let next : (q + 1) * size ≡ q * size + size = grind arith in
    let below = le-div_iff_mul-le {k = size} {x = q} {y = m} h in
    let above = div-lt_iff_lt-mul {k = size} {x = m} {y = q + 1} h in
    let low : leb (q * size) m ≡ leb q (m / size) = leb_iff _ _ _ _ below.1 below.0 in
    let high : leb m (q * size + (size - 1)) ≡ leb (m / size) q =
      leb_iff _ _ _ _ (λ t. omega (arith, above.1 (omega arith)))
        (λ t. omega (arith, above.0 (omega arith))) in
    ap₂ ◌&&◌ low high ∙ leb-leb q (m / size)

pow-pos : (k : ℕ) → 0 < 2 ^ k
pow-pos k = one-le-pow k 2 (omega arith)

-- `check` with a string and no type.
check_string :
    (x : Str) (rules : List Rule)
    → check (string x) undefined rules ≡ ok (check_address (x, ipv4) rules)
unfolding check check_args
check_string x rules = refl

-- An IPv4 rule more.
check-four :
    (x : Str) (m s e : ℕ) (label : Str) (rules : List Rule)
    → ipv4_to_int x ≡ some m
    → check (string x) undefined (rules ++ record { span = four s e; label = label } ∷ [])
      ≡ (check (string x) undefined rules >>= λ b. ok (b || (leb s m && leb m e)))
check-four x m s e label rules h =
    check_string x (rules ++ record { span = four s e; label = label } ∷ [])
    ∙ ap ok (check_address-four x m s e label rules h)
    ∙ ap (λ (r : Result Bool). r >>= λ b. ok (b || (leb s m && leb m e)))
        (sym (check_string x rules))

add_subnet-four :
    (network : Str) (n prefix : ℕ) (rules : List Rule)
    → ipv4_to_int network ≡ some n
    → prefix ≤ 32
    → (label : Str) × (add_subnet (string network) (natural prefix) undefined rules
        ≡ ok (
            rules
            ++ record {
              span = four (first_of (32 - prefix) n) (last_of (32 - prefix) n);
              label = label;
            }
              ∷ []))
unfolding add_subnet addr_and_type integer_prefix normalize_ip_type subnet_rule
add_subnet-four network n prefix rules e h =
    let base = first_of (32 - prefix) n in
    (
      codes "Subnet: IPv4 " ++ (int_to_ipv4 base ++ (codes "/" ++ to_string 10 prefix)),
      rw (le→ltb 32 prefix h, subnet_rule, e) refl,
    )

-- After `addSubnet` with an IPv4 address and a prefix of 32 at most, exactly those IPv4 addresses are
-- blocked that were before and those that agree with the network in the bits of the prefix, given as
-- the quotients by 2 ^ (32 - prefix).
pub check-add_subnet :
    (network x : Str) (n m prefix : ℕ) (rules : List Rule) {rules' : List Rule}
    → ipv4_to_int network ≡ some n
    → ipv4_to_int x ≡ some m
    → prefix ≤ 32
    → add_subnet (string network) (natural prefix) undefined rules ≡ ok rules'
    → check (string x) undefined rules' ≡ (
        check (string x) undefined rules >>= λ b.
        ok (b || (m / 2 ^ (32 - prefix) == n / 2 ^ (32 - prefix))))
unfolding first_of last_of
check-add_subnet network x n m prefix rules {rules'} e f h added =
    let k = 32 - prefix in
    let (label, pushed) = add_subnet-four network n prefix rules e h in
    let rule : Rule = record { span = four (first_of k n) (last_of k n); label = label } in
    let at : rules' ≡ rules ++ rule ∷ [] = cc in
    ap (check (string x) undefined) at
    ∙ check-four x m (first_of k n) (last_of k n) label rules f
    ∙ ap (λ (t : Bool). check (string x) undefined rules >>= λ b. ok (b || t))
        (leb-block m (n / 2 ^ k) (2 ^ k) (pow-pos k))

-- After `addRange` with two IPv4 addresses of which the second is not below the first, exactly those
-- IPv4 addresses are blocked that were before and those from the first to the second.
pub check-add_range :
    (first last x : Str) (s e m : ℕ) (rules : List Rule) {rules' : List Rule}
    → ipv4_to_int first ≡ some s
    → ipv4_to_int last ≡ some e
    → ipv4_to_int x ≡ some m
    → s ≤ e
    → add_range (string first) (string last) undefined rules ≡ ok rules'
    → check (string x) undefined rules'
      ≡ (check (string x) undefined rules >>= λ b. ok (b || (leb s m && leb m e)))
unfolding add_range addr_and_type end_of_range normalize_ip_type range_rule
check-add_range first last x s e m rules {rules'} f g h le added =
    let label = codes "Range: IPv4 " ++ (first ++ (codes "-" ++ last)) in
    let rule : Rule = record { span = four s e; label = label } in
    let pushed : add_range (string first) (string last) undefined rules ≡ ok (rules ++ rule ∷ []) =
      rw (f, range_rule, g, le→ltb e s le) refl in
    let at : rules' ≡ rules ++ rule ∷ [] = cc in
    ap (check (string x) undefined) at ∙ check-four x m s e label rules h
