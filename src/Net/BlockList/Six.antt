-- ===== src/Net/BlockList/Six.antt =====
-- IPv6 addresses in jac/js_engine/engine/src/builtins/js/net.js: `_parseIpv6Parts`, `_ipv6ToBytes`,
-- `_ipv6Compare` and `_formatIpv6`.
use jaseci.Prelude.{
  ℕ, zero, suc, ◌+◌, ◌-◌, ◌/◌, ◌%◌, ◌^◌, Bool, true, false, not, ◌&&◌, ◌||◌, List, [], ◌∷◌, ◌++◌,
  map, Option, none, some, ltb, ◌==◌, if◌then◌else◌, Str, codes, length, take, drop, replicate,
  split, join, cons_head, index_of, last_index_of, to_lower_case,
}
use jaseci.Numerals.{to_string, number, parse_int}
use jaseci.Net.{is_hex_char, ipv4_to_int}

abbrev pub Bytes : Type 0
Bytes = List ℕ

-- `s.split("::")`
unfoldable pub split_double : Str → List Str
unfolding cons_head
split_double [] = [] ∷ []
split_double (c ∷ []) = (c ∷ []) ∷ []
split_double (c ∷ d ∷ s) =
    let apart = [] ∷ split_double s in
    let along = cons_head c (split_double (d ∷ s)) in
    if c == b':' && d == b':' then apart else along

-- `half === "" ? [] : half.split(":")`
unfoldable pub hextets_of : Str → List Str
unfolding split
hextets_of [] = []
hextets_of (c ∷ s) = split b':' (c ∷ s)

-- The eight texts between the colons, where `::` stands for zeros.
unfoldable pub expand : List Str → Option (List Str)
unfolding hextets_of
expand [] = none
expand (half ∷ []) = let head = hextets_of half in if length head == 8 then some head else none
expand (half ∷ other ∷ []) =
    let head = hextets_of half in
    let tail = hextets_of other in
    let given = length head + length tail in
    if ltb 8 given then none else some (head ++ (replicate (8 - given) (codes "0") ++ tail))
expand (half ∷ other ∷ third ∷ halves) = none

unfoldable pub all_hex : Str → Bool
unfolding is_hex_char
all_hex [] = true
all_hex (c ∷ s) = is_hex_char c && all_hex s

unfoldable pub parse_hextet : Str → Option ℕ
unfolding all_hex parse_int
parse_hextet s =
    if length s == 0 || ltb 4 (length s) || not (all_hex s)
    then none
    else elim (parse_int 16 s) [ number n ↦ some n | _ ↦ none ]

unfoldable pub parse_hextets : List Str → Option (List ℕ)
unfolding parse_hextet
parse_hextets [] = some []
parse_hextets (s ∷ texts) = elim (parse_hextet s) [
  | none ↦ none
  | some n ↦ elim (parse_hextets texts) [ none ↦ none | some ns ↦ some (n ∷ ns) ]
]

-- `{ parts, mappedV4 }`
abbrev pub Parts : Type 0
Parts = List ℕ × Option ℕ

unfoldable pub parts_of : Str → Option ℕ → Option Parts
unfolding split_double expand parse_hextets
parts_of addr mapped = elim (expand (split_double addr)) [
  | none ↦ none
  | some texts ↦ elim (parse_hextets texts) [ none ↦ none | some parts ↦ some (parts, mapped) ]
]

-- `_parseIpv6Parts`; `last` is the place of the last colon plus one
unfoldable pub parse_ipv6_parts : Str → Option Parts
unfolding to_lower_case last_index_of index_of ipv4_to_int to_string parts_of
parse_ipv6_parts text =
    let addr = to_lower_case text in
    let last = last_index_of addr b':' in
    let tail = drop last addr in
    if last == 0
    then parts_of addr none
    else if index_of tail b'.' == 0
    then parts_of addr none
    else elim (ipv4_to_int tail) [
      | none ↦ none
      | some v4 ↦
          parts_of
            (take last addr
              ++ (to_string 16 (v4 / 2 ^ 16) ++ (codes ":" ++ to_string 16 (v4 % 2 ^ 16))))
            (some v4)
    ]

unfoldable pub bytes_of : List ℕ → Bytes
bytes_of [] = []
bytes_of (p ∷ parts) = (p / 256 % 256) ∷ (p % 256) ∷ bytes_of parts

unfoldable pub ipv6_to_bytes : Str → Option Bytes
unfolding parse_ipv6_parts bytes_of
ipv6_to_bytes addr = elim (parse_ipv6_parts addr) [
  | none ↦ none
  | some (parts, mapped) ↦ some (bytes_of parts)
]

-- `_ipv6Compare(a, b) < 0`, for addresses of as many bytes
unfoldable pub is_below : Bytes → Bytes → Bool
is_below (x ∷ a) (y ∷ b) =
    let rest = is_below a b in if ltb x y then true else if ltb y x then false else rest
is_below _ _ = false

-- How many zeros there are in front.
unfoldable pub zeros : List ℕ → ℕ
zeros [] = 0
zeros (p ∷ parts) = let rest = zeros parts in if p == 0 then suc rest else 0

-- The loop of `_formatIpv6` that looks for the longest run of zeros, with the place, the parts from
-- there and the best run so far; each round goes on by 1 at least, so that 8 rounds are enough.
unfoldable pub best_run : ℕ → ℕ → List ℕ → ℕ → ℕ → ℕ × ℕ
unfolding zeros
best_run zero i parts start len = (start, len)
best_run (suc fuel) i parts start len =
    let run = zeros parts in
    let step = if run == 0 then 1 else run in
    let better = ltb len run in
    best_run fuel (i + step) (drop step parts) (if better then i else start)
      (if better then run else len)

abbrev pub hex_texts : List ℕ → List Str
hex_texts = map (to_string 16)

unfoldable pub format_ipv6 : List ℕ → Str
unfolding best_run to_string join
format_ipv6 parts =
    let (start, len) = best_run 8 0 parts 0 0 in
    if ltb len 2
    then join b':' (hex_texts parts)
    else join b':' (hex_texts (take start parts))
      ++ (codes "::" ++ join b':' (hex_texts (drop (start + len) parts)))
