-- ===== src/Net/BlockList/Blocked.antt =====
-- Which addresses `check` of BlockList in net.js blocks.
use jaseci.Prelude.{
  ℕ, ◌+◌, ◌*◌, ◌^◌, ◌≤◌, ◌<◌, Bool, true, false, not, ◌&&◌, ◌||◌, List, [], ◌∷◌, Option, none, some,
  ltb, leb, ◌==◌, if◌then◌else◌, Str, All, length, ◌≡◌, ◌↔◌, ◌⊎◌, refl, ap, sym, ◌∙◌, arith,
  Option-cases, Bool-cases, inl, inr, ==→eq, subst, ltb→lt,
}
use native.Mathlib.Nat.{mul-le-mul_right, pow-succ'}
use jaseci.Net.BlockList.Six.{Bytes, ipv6_to_bytes, is_below}
use jaseci.Net.BlockList.Defs.{
  ipv6, Span, four, six, Rule, in_span, in_any, mapped_ipv4, check_address,
}

-- A rule has the property.
abbrev pub Some : (Span → Type 0) → List Rule → Type 0
Some P [] = ⊥
Some P (r ∷ rules) = P r.span ⊎ Some P rules

-- The number that bytes are, the highest one first.
abbrev pub number : Bytes → ℕ
number [] = 0
number (x ∷ b) = x * 256 ^ length b + number b

abbrev pub IsBytes : Bytes → Type 0
IsBytes = All (λ x. x < 256)

-- An IPv4 address is blocked by a range in which it is, and by the rule of an IPv6 address that maps it.
abbrev pub BlocksFour : ℕ → Span → Type 0
BlocksFour n (four s e) = (s ≤ n) × (n ≤ e)
BlocksFour n (six s e m) = m ≡ some n

or_iff : {P Q : Type 0} (a b : Bool) → (a ≡ true) ↔ P → (b ≡ true) ↔ Q → ((a || b) ≡ true) ↔ (P ⊎ Q)
or_iff true b p q = (λ h. inl (p.0 refl), λ h. refl)
or_iff false b p q = (λ h. inr (q.0 h), λ h. elim h [ inl x ↦ absurd (cc (p.1 x)) | inr x ↦ q.1 x ])

step_below : (x y p a b : ℕ) → x < y → a < p → x * p + a < y * p + b
step_below x y p a b h k = omega (arith, mul-le-mul_right p h)

number-bound : (b : Bytes) → IsBytes b → number b < 256 ^ length b
number-bound [] h = omega arith
number-bound (x ∷ b) h =
    let rest = number-bound b h.1 in
    rw (pow-succ' 256 (length b)) (omega (arith, mul-le-mul_right (256 ^ length b) h.0))

-- The order of addresses is the order of the numbers.
is_below-number :
    (a b : Bytes)
    → length a ≡ length b
    → IsBytes a
    → IsBytes b
    → (is_below a b ≡ true) ↔ (number a < number b)
unfolding is_below
is_below-number [] [] e h k = (λ t. absurd (cc), λ t. absurd (omega arith))
is_below-number [] (y ∷ b) e h k = absurd (omega arith)
is_below-number (x ∷ a) [] e h k = absurd (omega arith)
is_below-number (x ∷ a) (y ∷ b) e h k =
    let same : length a ≡ length b = omega arith in
    let rest = is_below-number a b same h.1 k.1 in
    let small_a : number a < 256 ^ length b =
      subst (λ n. number a < 256 ^ n) same (number-bound a h.1) in
    let small_b = number-bound b k.1 in
    rw same (elim (Bool-cases (ltb x y)) [
      | inl f ↦ rw f (
        λ t. step_below x y (256 ^ length b) (number a) (number b) (ltb→lt x y f) small_a,
        λ t. refl,
      )
      | inr f ↦ elim (Bool-cases (ltb y x)) [
        | inl g ↦
            let apart =
              step_below y x (256 ^ length b) (number b) (number a) (ltb→lt y x g) small_b in
            rw (f, g) (λ t. absurd (cc), λ t. absurd (omega arith))
        | inr g ↦
            let at : x ≡ y = ground (arith, f, g) in
            rw (f, g, at) (λ t. omega (arith, rest.0 t), λ t. rest.1 (omega arith))
      ]
    ])

-- The IPv4 address that is mapped: ten zeros, two bytes 0xff and its own four.
abbrev pub mapped : ℕ → ℕ → ℕ → ℕ → Bytes
mapped p q r t = 0 ∷ 0 ∷ 0 ∷ 0 ∷ 0 ∷ 0 ∷ 0 ∷ 0 ∷ 0 ∷ 0 ∷ 0xff ∷ 0xff ∷ p ∷ q ∷ r ∷ t ∷ []

abbrev pub IsMapped : Bytes → ℕ → Type 0
IsMapped b n =
    (p : ℕ) × (q : ℕ) × (r : ℕ) × (t : ℕ) × (b ≡ mapped p q r t)
    × (n ≡ ((p * 256 + q) * 256 + r) * 256 + t)

and_true : (a b : Bool) → (a && b) ≡ true → (a ≡ true) × (b ≡ true)
and_true true b h = (refl, h)
and_true false b h = absurd (cc)

mapped_ipv4-IsMapped : (b : Bytes) (n : ℕ) → mapped_ipv4 b ≡ some n → IsMapped b n
unfolding mapped_ipv4
mapped_ipv4-IsMapped
      (b0 ∷ b1 ∷ b2 ∷ b3 ∷ b4 ∷ b5 ∷ b6 ∷ b7 ∷ b8 ∷ b9 ∷ b10 ∷ b11 ∷ p ∷ q ∷ r ∷ t ∷ []) n h =
    guarded
      (b0 == 0
        && b1 == 0
        && b2 == 0
        && b3 == 0
        && b4 == 0
        && b5 == 0
        && b6 == 0
        && b7 == 0
        && b8 == 0
        && b9 == 0
        && b10 == 0xff
        && b11 == 0xff)
      refl h
  where
    guarded :
        (g : Bool)
        → (b0 == 0
            && b1 == 0
            && b2 == 0
            && b3 == 0
            && b4 == 0
            && b5 == 0
            && b6 == 0
            && b7 == 0
            && b8 == 0
            && b9 == 0
            && b10 == 0xff
            && b11 == 0xff)
          ≡ g
        → (if g then some (((p * 256 + q) * 256 + r) * 256 + t) else none) ≡ some n
        → IsMapped
            (b0 ∷ b1 ∷ b2 ∷ b3 ∷ b4 ∷ b5 ∷ b6 ∷ b7 ∷ b8 ∷ b9 ∷ b10 ∷ b11 ∷ p ∷ q ∷ r ∷ t ∷ [])
            n
    guarded false e f = absurd (cc)
    guarded true e f =
        let (r10, e11) = and_true _ (b11 == 0xff) e in
        let (r9, e10) = and_true _ (b10 == 0xff) r10 in
        let (r8, e9) = and_true _ (b9 == 0) r9 in
        let (r7, e8) = and_true _ (b8 == 0) r8 in
        let (r6, e7) = and_true _ (b7 == 0) r7 in
        let (r5, e6) = and_true _ (b6 == 0) r6 in
        let (r4, e5) = and_true _ (b5 == 0) r5 in
        let (r3, e4) = and_true _ (b4 == 0) r4 in
        let (r2, e3) = and_true _ (b3 == 0) r3 in
        let (r1, e2) = and_true _ (b2 == 0) r2 in
        let (e0, e1) = and_true _ (b1 == 0) r1 in
        let value : n ≡ ((p * 256 + q) * 256 + r) * 256 + t = cc in
        (
          p,
          q,
          r,
          t,
          cc (
            ==→eq b0 0 e0,
            ==→eq b1 0 e1,
            ==→eq b2 0 e2,
            ==→eq b3 0 e3,
            ==→eq b4 0 e4,
            ==→eq b5 0 e5,
            ==→eq b6 0 e6,
            ==→eq b7 0 e7,
            ==→eq b8 0 e8,
            ==→eq b9 0 e9,
            ==→eq b10 0xff e10,
            ==→eq b11 0xff e11,
          ),
          value,
        )
mapped_ipv4-IsMapped _ n h = absurd (cc)

IsMapped-mapped_ipv4 : (b : Bytes) (n : ℕ) → IsMapped b n → mapped_ipv4 b ≡ some n
unfolding mapped_ipv4
IsMapped-mapped_ipv4 b n (p, q, r, t, e, f) = ap mapped_ipv4 e ∙ ap some (sym f)

-- An IPv6 address is blocked by a range of IPv6 addresses in which it is, and, if it maps an IPv4 address,
-- by a range in which that is.
abbrev pub BlocksSix : Bytes → Span → Type 0
BlocksSix b (four s e) = (n : ℕ) × IsMapped b n × (s ≤ n) × (n ≤ e)
BlocksSix b (six s e m) = (number s ≤ number b) × (number b ≤ number e)

-- The bounds of IPv6 rules are 16 bytes.
abbrev pub IsSpan : Span → Type 0
IsSpan (four s e) = Unit
IsSpan (six s e m) = (length s ≡ 16) × (length e ≡ 16) × IsBytes s × IsBytes e

not_lt : (a c : ℕ) → (a < c → ⊥) → c ≤ a
not_lt a c h = ground (arith, h)

in_four : (n s e : ℕ) → ((leb s n && leb n e) ≡ true) ↔ ((s ≤ n) × (n ≤ e))
in_four n s e = (λ h. ground arith, λ h. ground arith)

in_span-six :
    (b : Bytes) (r : Span)
    → length b ≡ 16
    → IsBytes b
    → IsSpan r
    → (in_span (mapped_ipv4 b) (some b) r ≡ true) ↔ BlocksSix b r
unfolding in_span
in_span-six b (four s e) l h k = elim (Option-cases (mapped_ipv4 b)) [
  | inl f ↦
      let test : in_span (mapped_ipv4 b) (some b) (four s e) ≡ false =
        ap (λ (v : Option ℕ). in_span v (some b) (four s e)) f in
      (λ t. absurd (cc (t, test)), λ (n, m, lo, hi). absurd (cc (f, IsMapped-mapped_ipv4 b n m)))
  | inr (n, f) ↦
      let test : in_span (mapped_ipv4 b) (some b) (four s e) ≡ (leb s n && leb n e) =
        ap (λ (v : Option ℕ). in_span v (some b) (four s e)) f in
      let both = in_four n s e in
      (
        λ t. let (lo, hi) = both.0 (sym test ∙ t) in (n, mapped_ipv4-IsMapped b n f, lo, hi),
        λ (n', m, lo, hi).
            let at : n' ≡ n = cc (f, IsMapped-mapped_ipv4 b n' m) in
            test ∙ both.1 (omega (arith, at, lo), omega (arith, at, hi)),
      )
]
in_span-six b (six s e m) l h (ls, le, hs, he) =
    between (is_below b s) (is_below e b) (is_below-number b s (l ∙ sym ls) h hs)
      (is_below-number e b (le ∙ sym l) he h)
  where
    between :
        (p q : Bool)
        → (p ≡ true) ↔ (number b < number s)
        → (q ≡ true) ↔ (number e < number b)
        → ((not p && not q) ≡ true) ↔ ((number s ≤ number b) × (number b ≤ number e))
    between true q x y = (λ t. absurd (cc), λ (lo, hi). let c = x.0 refl in absurd (omega arith))
    between false true x y =
        (λ t. absurd (cc), λ (lo, hi). let c = y.0 refl in absurd (omega arith))
    between false false x y = (
      λ t. (
        omega (arith, not_lt (number b) (number s) (λ c. absurd (cc (x.1 c)))),
        omega (arith, not_lt (number e) (number b) (λ c. absurd (cc (y.1 c)))),
      ),
      λ t. refl,
    )

any-six :
    (b : Bytes) (rules : List Rule)
    → length b ≡ 16
    → IsBytes b
    → All (λ (r : Rule). IsSpan r.span) rules
    → (in_any (mapped_ipv4 b) (some b) rules ≡ true) ↔ Some (BlocksSix b) rules
unfolding in_any
any-six b [] l h k = (λ t. absurd (cc), λ n. absurd n)
any-six b (r ∷ rules) l h k =
    or_iff (in_span (mapped_ipv4 b) (some b) r.span) (in_any (mapped_ipv4 b) (some b) rules)
      (in_span-six b r.span l h k.0) (any-six b rules l h k.1)

-- An IPv6 address of 16 bytes is blocked exactly if its number is in the range of a rule of IPv6
-- addresses, whose bounds are 16 bytes too, or if it maps an IPv4 address in the range of a rule of those.
pub check_address-six_iff :
    (x : Str) (b : Bytes) (rules : List Rule)
    → ipv6_to_bytes x ≡ some b
    → length b ≡ 16
    → IsBytes b
    → All (λ (r : Rule). IsSpan r.span) rules
    → (check_address (x, ipv6) rules ≡ true) ↔ Some (BlocksSix b) rules
unfolding check_address
check_address-six_iff x b rules e l h k = rw (check_address, e) (any-six b rules l h k)
