-- ===== src/Tests/Blocks.antt =====
-- The addresses and the block list of net.js at concrete inputs.
use jaseci.Prelude.{◌↔◌, true, [], ◌∷◌, some, codes, ◌≡◌, refl, arith}
use jaseci.Net.{ipv4_to_int, int_to_ipv4, is_ip}
use jaseci.Net.Addresses.{ipv4_to_int-int_to_ipv4}
use jaseci.Net.BlockList.Six.{Bytes, ipv6_to_bytes, format_ipv6}
use jaseci.Net.BlockList.Defs.{
  Family, Address, IpType, Prefix, ok, Span, Rule, add_subnet, check, check_address,
}
use jaseci.Net.BlockList.Blocked
use jaseci.Net.BlockList.Blocked.{Some, BlocksSix, IsBytes, check_address-six_iff}
use jaseci.Net.BlockList.Subnets.{check-add_subnet}

-- ::::: is no address, yet has colons enough.
colons : is_ip (codes ":::::") ≡ 6
unfolding is_ip
colons = refl

loopback : is_ip (codes "127.0.0.1") ≡ 4
unfolding is_ip
loopback = refl

mapped : is_ip (codes "::ffff:1.2.3.4") ≡ 6
unfolding is_ip
mapped = refl

formatted : format_ipv6 (0x2001 ∷ 0xdb8 ∷ 0 ∷ 0 ∷ 0 ∷ 0 ∷ 0 ∷ 1 ∷ []) ≡ codes "2001:db8::1"
unfolding format_ipv6
formatted = refl

six_bytes :
    ipv6_to_bytes (codes "::1.2.3.4")
    ≡ some (0 ∷ 0 ∷ 0 ∷ 0 ∷ 0 ∷ 0 ∷ 0 ∷ 0 ∷ 0 ∷ 0 ∷ 0 ∷ 0 ∷ 1 ∷ 2 ∷ 3 ∷ 4 ∷ [])
unfolding ipv6_to_bytes
six_bytes = refl

abbrev block : Rule
block = record { span = Span.four 0x0a000000 0x0a0000ff; label = codes "Subnet: IPv4 10.0.0.0/24" }

subnet_added :
    add_subnet (Address.string (codes "10.0.0.7")) (Prefix.natural 24) IpType.undefined []
    ≡ ok (block ∷ [])
unfolding add_subnet
subnet_added = refl

mapped_blocked :
    check (Address.string (codes "::ffff:10.0.0.9")) (IpType.named (codes "IPv6")) (block ∷ [])
    ≡ ok true
unfolding check
mapped_blocked = refl

abbrev span_rule : Rule
span_rule = record {
  span = Span.four 0x01020304 0x01020309;
  label = codes "Range: IPv4 1.2.3.4-1.2.3.9";
}

ipv4_to_int-int_to_ipv4_example : ipv4_to_int (int_to_ipv4 0xc0a80001) ≡ some 0xc0a80001
ipv4_to_int-int_to_ipv4_example = ipv4_to_int-int_to_ipv4 0xc0a80001

-- ::ffff:10.0.0.9
abbrev nine : Bytes
nine = Blocked.mapped 10 0 0 9

nine-IsBytes : IsBytes nine
nine-IsBytes = (
  omega arith,
  (
    omega arith,
    (
      omega arith,
      (
        omega arith,
        (
          omega arith,
          (
            omega arith,
            (
              omega arith,
              (
                omega arith,
                (
                  omega arith,
                  (
                    omega arith,
                    (
                      omega arith,
                      (omega arith, (omega arith, (omega arith, (omega arith, (omega arith, tt))))),
                    ),
                  ),
                ),
              ),
            ),
          ),
        ),
      ),
    ),
  ),
)

check_address-six_iff_example :
    (check_address (codes "::ffff:10.0.0.9", Family.ipv6) (span_rule ∷ block ∷ []) ≡ true)
    ↔ Some (BlocksSix nine) (span_rule ∷ block ∷ [])
check_address-six_iff_example =
    check_address-six_iff (codes "::ffff:10.0.0.9") nine (span_rule ∷ block ∷ [])
      (unfold ipv6_to_bytes in refl) refl nine-IsBytes (tt, (tt, tt))

check-add_subnet_example :
    check (Address.string (codes "10.0.0.9")) IpType.undefined (block ∷ []) ≡ ok true
unfolding add_subnet check ipv4_to_int
check-add_subnet_example =
    check-add_subnet (codes "10.0.0.7") (codes "10.0.0.9") 0x0a000007 0x0a000009 24 []
      {rules' = block ∷ []} refl refl (omega arith) refl
