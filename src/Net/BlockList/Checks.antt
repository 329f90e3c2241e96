-- ===== src/Net/BlockList/Checks.antt =====
-- What `check` of BlockList in net.js says of the rules, one by one.
use jaseci.Prelude.{
  ℕ, Bool, true, false, ◌&&◌, ◌||◌, List, [], ◌∷◌, ◌++◌, Option, none, some, leb, Str, ◌≡◌, refl,
  ap, ap₂, sym, ◌∙◌, Option-cases, inl, inr,
}
use jaseci.Net.{ipv4_to_int}
use jaseci.Net.BlockList.Six.{Bytes, ipv6_to_bytes}
use jaseci.Net.BlockList.Defs.{
  Family, ipv4, ipv6, four, Rule, in_span, in_any, is_mapped, any_mapped, mapped_ipv4,
  check_address,
}

or_assoc : (a b c : Bool) → ((a || b) || c) ≡ (a || (b || c))
or_assoc true b c = refl
or_assoc false b c = refl

or-false : (a : Bool) → (a || false) ≡ a
or-false true = refl
or-false false = refl

pub or_swap : (a b c d : Bool) → ((a || b) || (c || d)) ≡ ((a || c) || (b || d))
or_swap true b c d = refl
or_swap false true true d = refl
or_swap false true false d = refl
or_swap false false c d = refl

in_any-append :
    (v4 : Option ℕ) (b : Option Bytes) (rules : List Rule) (r : Rule)
    → in_any v4 b (rules ++ r ∷ []) ≡ (in_any v4 b rules || in_span v4 b r.span)
unfolding in_any
in_any-append v4 b [] r = or-false (in_span v4 b r.span)
in_any-append v4 b (x ∷ rules) r =
    ap (λ (t : Bool). in_span v4 b x.span || t) (in_any-append v4 b rules r)
    ∙ sym (or_assoc (in_span v4 b x.span) (in_any v4 b rules) (in_span v4 b r.span))

any_mapped-append :
    (n : ℕ) (rules : List Rule) (r : Rule)
    → any_mapped n (rules ++ r ∷ []) ≡ (any_mapped n rules || is_mapped n r.span)
unfolding any_mapped
any_mapped-append n [] r = or-false (is_mapped n r.span)
any_mapped-append n (x ∷ rules) r =
    ap (λ (t : Bool). is_mapped n x.span || t) (any_mapped-append n rules r)
    ∙ sym (or_assoc (is_mapped n x.span) (any_mapped n rules) (is_mapped n r.span))

-- A list with one more rule blocks what it blocked before and what that rule blocks alone, and nothing
-- else, for addresses of both families.
pub check_address-append :
    (at : Str × Family) (rules : List Rule) (r : Rule)
    → check_address at (rules ++ r ∷ []) ≡ (check_address at rules || check_address at (r ∷ []))
unfolding check_address in_any any_mapped
check_address-append (addr, ipv4) rules r = elim (Option-cases (ipv4_to_int addr)) [
  | inl e ↦ rw (e, check_address) refl
  | inr (n, e) ↦
      rw (e, check_address)
        (ap₂ ◌||◌ (in_any-append (some n) none rules r) (any_mapped-append n rules r)
          ∙ or_swap (in_any (some n) none rules) (in_span (some n) none r.span) (any_mapped n rules)
              (is_mapped n r.span)
          ∙ ap (λ (t : Bool). (in_any (some n) none rules || any_mapped n rules) || t)
              (ap₂ ◌||◌ (sym (or-false (in_span (some n) none r.span)))
                (sym (or-false (is_mapped n r.span)))))
]
check_address-append (addr, ipv6) rules r = elim (Option-cases (ipv6_to_bytes addr)) [
  | inl e ↦ rw (e, check_address) refl
  | inr (b, e) ↦
      rw (e, check_address)
        (in_any-append (mapped_ipv4 b) (some b) rules r
          ∙ ap (λ (t : Bool). in_any (mapped_ipv4 b) (some b) rules || t)
              (sym (or-false (in_span (mapped_ipv4 b) (some b) r.span))))
]

-- An IPv4 address and one more IPv4 rule.
pub check_address-four :
    (x : Str) (m s e : ℕ) (label : Str) (rules : List Rule)
    → ipv4_to_int x ≡ some m
    → check_address (x, ipv4) (rules ++ record { span = four s e; label = label } ∷ [])
      ≡ (check_address (x, ipv4) rules || (leb s m && leb m e))
unfolding check_address in_any any_mapped in_span is_mapped
check_address-four x m s e label rules h =
    let rule : Rule = record { span = four s e; label = label } in
    check_address-append (x, ipv4) rules rule
    ∙ ap (λ (t : Bool). check_address (x, ipv4) rules || t)
        (rw (h, check_address)
          (ap (λ (t : Bool). t || false) (or-false (leb s m && leb m e))
            ∙ or-false (leb s m && leb m e)))
