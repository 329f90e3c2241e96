-- ===== src/Net/BlockList/Defs.antt =====
-- `BlockList` of jac/js_engine/engine/src/builtins/js/net.js.
use jaseci.Prelude.{
  ℕ, ◌+◌, ◌-◌, ◌*◌, ◌/◌, ◌^◌, Bool, false, not, ◌&&◌, ◌||◌, List, [], ◌∷◌, ◌++◌, map, reverse,
  Option, none, some, ltb, leb, ◌==◌, if◌then◌else◌, Str, codes, str_eq, to_lower_case,
}
use jaseci.Numerals.{to_string}
use jaseci.Net.{ipv4_to_int, int_to_ipv4}
use jaseci.Net.BlockList.Six.{
  Bytes, parse_ipv6_parts, bytes_of, ipv6_to_bytes, is_below, format_ipv6,
}

pub data Family : Type 0 where
  ipv4 : Family
  ipv6 : Family

-- An argument `address`: a string, a socket address with its family, or another value.
pub data Address : Type 0 where
  string : Str → Address
  socket : Str → Family → Address
  invalid : Address

-- The argument `ipType`; `invalid` is a value that is no string, null apart.
pub data IpType : Type 0 where
  undefined : IpType
  null : IpType
  named : Str → IpType
  invalid : IpType

-- The argument `prefix`; `fraction` is a number that is no integer.
pub data Prefix : Type 0 where
  invalid : Prefix
  fraction : Prefix
  negative : Prefix
  natural : ℕ → Prefix

-- The errors that are thrown.
pub data Error : Type 0 where
  invalid_arg_type : Error
  invalid_arg_value : Error
  out_of_range : Error

pub data Result {ℓ} (A : Type ℓ) : Type ℓ where
  ok : A → Result A
  err : Error → Result A

infixl 5 ◌>>=◌
abbrev pub ◌>>=◌ {ℓ κ} : {A : Type ℓ} {B : Type κ} → Result A → (A → Result B) → Result B
ok a >>= f = f a
err e >>= f = err e

-- A value that was parsed, or else the error.
abbrev pub or_throw {ℓ} : {A : Type ℓ} → Option A → Error → Result A
or_throw none e = err e
or_throw (some a) e = ok a

-- The fields `start` and `end`, or `startBytes`, `endBytes` and, of an address, `mappedV4`.
pub data Span : Type 0 where
  four : ℕ → ℕ → Span
  six : Bytes → Bytes → Option ℕ → Span

pub record Rule : Type 0 where
  pub span : Span
  pub label : Str

-- `_normalizeIPType`
unfoldable pub normalize_ip_type : IpType → Result Family
unfolding to_lower_case str_eq
normalize_ip_type undefined = ok ipv4
normalize_ip_type null = err invalid_arg_type
normalize_ip_type invalid = err invalid_arg_type
normalize_ip_type (named s) =
    let t = to_lower_case s in
    if str_eq t (codes "ipv4")
    then ok ipv4
    else if str_eq t (codes "ipv6")
    then ok ipv6
    else err invalid_arg_value

-- `_addrAndType`
unfoldable pub addr_and_type : Address → IpType → Result (Str × Family)
unfolding normalize_ip_type
addr_and_type (socket s family) t = ok (s, family)
addr_and_type invalid t = err invalid_arg_type
addr_and_type (string s) t = normalize_ip_type t >>= λ family. ok (s, family)

-- The rules of the three calls, which are pushed at the end of `_rules`.
unfoldable pub address_rule : Str × Family → Result Rule
unfolding ipv4_to_int parse_ipv6_parts bytes_of
address_rule (addr, ipv4) = or_throw (ipv4_to_int addr) invalid_arg_value >>= λ n.
    ok (record { span = four n n; label = codes "Address: IPv4 " ++ addr })
address_rule (addr, ipv6) = or_throw (parse_ipv6_parts addr) invalid_arg_value >>= λ p. ok (record {
  span = six (bytes_of p.0) (bytes_of p.0) p.1;
  label = codes "Address: IPv6 " ++ addr;
})

unfoldable pub add_address : Address → IpType → List Rule → Result (List Rule)
unfolding addr_and_type address_rule
add_address address t rules =
    addr_and_type address t >>= address_rule >>= λ rule. ok (rules ++ (rule ∷ []))

-- The last address of a range; a string has the type of the first.
unfoldable pub end_of_range : Address → IpType → Result Str
unfolding addr_and_type
end_of_range (socket s family) t = addr_and_type (socket s family) t >>= λ p. ok p.0
end_of_range invalid t = err invalid_arg_type
end_of_range (string s) t = ok s

unfoldable pub range_rule : Str → Str × Family → Result Rule
unfolding ipv4_to_int ipv6_to_bytes is_below
range_rule last (first, ipv4) = or_throw (ipv4_to_int first) invalid_arg_value >>= λ s.
    or_throw (ipv4_to_int last) invalid_arg_value >>= λ e.
    if ltb e s
    then err invalid_arg_value
    else ok
        (record { span = four s e; label = codes "Range: IPv4 " ++ (first ++ (codes "-" ++ last)) })
range_rule last (first, ipv6) = or_throw (ipv6_to_bytes first) invalid_arg_value >>= λ s.
    or_throw (ipv6_to_bytes last) invalid_arg_value >>= λ e.
    if is_below e s
    then err invalid_arg_value
    else ok (record {
      span = six s e none;
      label = codes "Range: IPv6 " ++ (first ++ (codes "-" ++ last));
    })

unfoldable pub add_range : Address → Address → IpType → List Rule → Result (List Rule)
unfolding addr_and_type end_of_range range_rule
add_range start end t rules = addr_and_type start t >>= λ first.
    end_of_range end t >>= λ last. range_rule last first >>= λ rule. ok (rules ++ (rule ∷ []))

-- `n & mask` and `n & mask | ~mask`, for the mask without the lowest k bits
unfoldable pub first_of : ℕ → ℕ → ℕ
first_of k n = n / 2 ^ k * 2 ^ k

unfoldable pub last_of : ℕ → ℕ → ℕ
unfolding first_of
last_of k n = first_of k n + (2 ^ k - 1)

-- The loop over the bytes: how many bits of a byte are left of the prefix, 8 at most.
unfoldable pub mask_bytes : (ℕ → ℕ → ℕ) → ℕ → Bytes → Bytes
mask_bytes mask prefix [] = []
mask_bytes mask prefix (b ∷ bytes) = mask (8 - prefix) b ∷ mask_bytes mask (prefix - 8) bytes

-- Two bytes make a part.
unfoldable pub parts_of_bytes : Bytes → List ℕ
parts_of_bytes [] = []
parts_of_bytes (x ∷ []) = []
parts_of_bytes (x ∷ y ∷ bytes) = (x * 256 + y) ∷ parts_of_bytes bytes

unfoldable pub subnet_rule : ℕ → Str × Family → Result Rule
unfolding ipv4_to_int int_to_ipv4 ipv6_to_bytes first_of last_of mask_bytes parts_of_bytes
    format_ipv6 to_string
subnet_rule prefix (addr, ipv4) =
    if ltb 32 prefix
    then err out_of_range
    else or_throw (ipv4_to_int addr) invalid_arg_value >>= λ n. ok (record {
      span = four (first_of (32 - prefix) n) (last_of (32 - prefix) n);
      label =
          codes "Subnet: IPv4 "
          ++ (int_to_ipv4 (first_of (32 - prefix) n) ++ (codes "/" ++ to_string 10 prefix));
    })
subnet_rule prefix (addr, ipv6) =
    if ltb 128 prefix
    then err out_of_range
    else or_throw (ipv6_to_bytes addr) invalid_arg_value >>= λ b. ok (record {
      span = six (mask_bytes first_of prefix b) (mask_bytes last_of prefix b) none;
      label =
          codes "Subnet: IPv6 "
          ++ (format_ipv6 (parts_of_bytes (mask_bytes first_of prefix b))
              ++ (codes "/" ++ to_string 10 prefix));
    })

unfoldable pub integer_prefix : Prefix → Result ℕ
integer_prefix invalid = err invalid_arg_type
integer_prefix fraction = err out_of_range
integer_prefix negative = err out_of_range
integer_prefix (natural n) = ok n

unfoldable pub add_subnet : Address → Prefix → IpType → List Rule → Result (List Rule)
unfolding addr_and_type integer_prefix subnet_rule
add_subnet network prefix t rules = addr_and_type network t >>= λ at.
    integer_prefix prefix >>= λ p. subnet_rule p at >>= λ rule. ok (rules ++ (rule ∷ []))

-- The getter `rules`
unfoldable pub labels : List Rule → List Str
labels rules = reverse (map (λ (r : Rule). r.label) rules)

-- How `check` reads its arguments: a type that is null counts as undefined.
unfoldable pub check_args : Address → IpType → Result (Str × Family)
unfolding addr_and_type normalize_ip_type
check_args (socket s family) t = addr_and_type (socket s family) t
check_args invalid t = err invalid_arg_type
check_args (string s) undefined = ok (s, ipv4)
check_args (string s) null = ok (s, ipv4)
check_args (string s) invalid = err invalid_arg_type
check_args (string s) (named t) = normalize_ip_type (named t) >>= λ family. ok (s, family)

-- The IPv4 address of a mapped one, ::ffff:a.b.c.d
unfoldable pub mapped_ipv4 : Bytes → Option ℕ
mapped_ipv4
      (b0 ∷ b1 ∷ b2 ∷ b3 ∷ b4 ∷ b5 ∷ b6 ∷ b7 ∷ b8 ∷ b9 ∷ b10 ∷ b11 ∷ b12 ∷ b13 ∷ b14 ∷ b15 ∷ []) =
    if b0 == 0
      && b1 == 0
      && b2 == 0
      && b3 == 0
      && b4 == 0
      && b5 == 0
      && b6 == 0
      && b7 == 0
      && b8 == 0
      && b9 == 0
      && b10 == 0xff
      && b11 == 0xff
    then some (((b12 * 256 + b13) * 256 + b14) * 256 + b15)
    else none
mapped_ipv4 _ = none

-- A round of the first loop, for an address as a number, as bytes, or as both.
unfoldable pub in_span : Option ℕ → Option Bytes → Span → Bool
unfolding is_below
in_span none bytes (four s e) = false
in_span (some n) bytes (four s e) = leb s n && leb n e
in_span v4 none (six s e m) = false
in_span v4 (some b) (six s e m) = not (is_below b s) && not (is_below e b)

unfoldable pub in_any : Option ℕ → Option Bytes → List Rule → Bool
unfolding in_span
in_any v4 bytes [] = false
in_any v4 bytes (r ∷ rules) = in_span v4 bytes r.span || in_any v4 bytes rules

-- The second loop, for IPv4; only the rule of an address has a mapped one.
unfoldable pub is_mapped : ℕ → Span → Bool
is_mapped n (four s e) = false
is_mapped n (six s e none) = false
is_mapped n (six s e (some m)) = m == n

unfoldable pub any_mapped : ℕ → List Rule → Bool
unfolding is_mapped
any_mapped n [] = false
any_mapped n (r ∷ rules) = is_mapped n r.span || any_mapped n rules

unfoldable pub check_address : Str × Family → List Rule → Bool
unfolding ipv4_to_int ipv6_to_bytes mapped_ipv4 in_any any_mapped
check_address (addr, ipv4) rules = elim (ipv4_to_int addr) [
  | none ↦ false
  | some n ↦ in_any (some n) none rules || any_mapped n rules
]
check_address (addr, ipv6) rules = elim (ipv6_to_bytes addr) [
  | none ↦ false
  | some b ↦ in_any (mapped_ipv4 b) (some b) rules
]

unfoldable pub check : Address → IpType → List Rule → Result Bool
unfolding check_args check_address
check address t rules = check_args address t >>= λ at. ok (check_address at rules)
