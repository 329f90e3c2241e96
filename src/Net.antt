-- ===== src/Net.antt =====
-- Addresses in jac/js_engine/engine/src/builtins/js/net.js: `isIP`, and the texts and numbers of the IPv4
-- and IPv6 addresses that BlockList uses. An octet with an exponent, such as 1e2, which the source reads
-- by `Number`, counts as invalid here.
pub mod Addresses
pub mod BlockList
use jaseci.Prelude.{
  ℕ, zero, suc, ◌+◌, ◌-◌, ◌*◌, ◌/◌, ◌%◌, ◌^◌, Bool, true, false, not, ◌&&◌, ◌||◌, List, [], ◌∷◌,
  ◌++◌, Option, none, some, ltb, leb, ◌==◌, within, if◌then◌else◌, Str, codes, length, take, drop,
  replicate, split, join, cons_head, index_of, last_index_of, to_lower_case,
}
use jaseci.Numerals.{
  Numeric, integer, other, to_number, to_string, Parsed, nan, number, minus, parse_int,
}

unfoldable pub is_digit : ℕ → Bool
is_digit c = within b'0' b'9' c

unfoldable pub is_hex_char : ℕ → Bool
unfolding is_digit
is_hex_char c = is_digit c || within b'a' b'f' c || within b'A' b'F' c

-- `_ipv4ToInt`: a round of the loop, on the number so far.
unfoldable pub add_octet : ℕ → Str → Option ℕ
unfolding is_digit to_number
add_octet n [] = none
add_octet n (c ∷ part) =
    if is_digit c
    then elim (to_number (c ∷ part)) [
      | other s ↦ none
      | integer o ↦ if ltb 255 o then none else some (n * 256 % 2 ^ 32 + o)
    ]
    else none

unfoldable pub add_octets : ℕ → List Str → Option ℕ
unfolding add_octet
add_octets n [] = some (n % 2 ^ 32)
add_octets n (part ∷ parts) = elim (add_octet n part) [ none ↦ none | some m ↦ add_octets m parts ]

unfoldable pub ipv4_to_int : Str → Option ℕ
unfolding split add_octets
ipv4_to_int addr =
    let parts = split b'.' addr in if length parts == 4 then add_octets 0 parts else none

-- `_intToIpv4`
unfoldable pub int_to_ipv4 : ℕ → Str
unfolding to_string
int_to_ipv4 m =
    let n = m % 2 ^ 32 in
    to_string 10 (n / 2 ^ 24 % 256)
    ++ (codes "."
        ++ (to_string 10 (n / 2 ^ 16 % 256)
            ++ (codes "."
                ++ (to_string 10 (n / 2 ^ 8 % 256) ++ (codes "." ++ to_string 10 (n % 256))))))

-- `isIP`: an octet of one digit to three, 255 at most; a text of digits is never negative
unfoldable pub all_digits? : Str → Bool
unfolding is_digit
all_digits? [] = true
all_digits? (c ∷ s) = is_digit c && all_digits? s

unfoldable pub is_octet : Str → Bool
unfolding all_digits? to_number
is_octet p =
    not (length p == 0)
    && leb (length p) 3
    && all_digits? p
    && (elim (to_number p) [ integer n ↦ leb n 255 | other s ↦ true ])

unfoldable pub all_octets : List Str → Bool
unfolding is_octet
all_octets [] = true
all_octets (p ∷ parts) = is_octet p && all_octets parts

unfoldable pub is_ipv4 : Str → Bool
unfolding split all_octets
is_ipv4 input = let parts = split b'.' input in length parts == 4 && all_octets parts

unfoldable pub hex_and_colons : Str → Bool
unfolding is_hex_char
hex_and_colons [] = true
hex_and_colons (c ∷ s) = (c == b':' || is_hex_char c) && hex_and_colons s

unfoldable pub count_colons : Str → ℕ
count_colons [] = 0
count_colons (c ∷ s) = if c == b':' then suc (count_colons s) else count_colons s

-- Of the part that the loop over `core` looks at.
unfoldable pub colon_form : Str → ℕ
unfolding hex_and_colons count_colons
colon_form core = if hex_and_colons core && leb 2 (count_colons core) then 6 else 0

-- `input.indexOf(".", lastColon)`; the part behind the last colon is `drop last input`
unfoldable pub is_ip : Str → ℕ
unfolding is_ipv4 index_of last_index_of colon_form
is_ip input =
    let last = last_index_of input b':' in
    let tail = drop last input in
    if is_ipv4 input
    then 4
    else if last == 0
    then 0
    else if index_of tail b'.' == 0
    then colon_form input
    else if is_ipv4 tail
    then colon_form (take (last - 1) input)
    else 0
