-- ===== src/Querystring.antt =====
-- jac/js_engine/engine/src/builtins/js/querystring.js, with the language's decodeURIComponent. A
-- mask `x & 63` is `x % 64`, a shift `x >> 6` is `x / 64`, and `|` joins fields of bits that do not
-- overlap, so it is `+`.
pub mod Escape
pub mod Octets
pub mod Unescape
pub mod Objects
use jaseci.Prelude.{
  ℕ, zero, suc, ◌+◌, ◌-◌, ◌*◌, ◌/◌, ◌%◌, Bool, true, false, ◌&&◌, ◌||◌, List, [], ◌∷◌, ◌++◌, Option,
  none, some, ltb, leb, ◌==◌, within, if◌then◌else◌, Str, str_eq, length, get_elem?, take, drop,
  split, join,
}
use mathlib.Core.Option
use jaseci.Unicode.{Bytes, units, bytes}

unfoldable pub hex_char : ℕ → ℕ
hex_char d = if ltb d 10 then b'0' + d else b'A' + (d - 10)

-- `hexTable[b]`
unfoldable pub hex_table : ℕ → Str
unfolding hex_char
hex_table b = b'%' ∷ hex_char (b / 16) ∷ hex_char (b % 16) ∷ []

unfoldable pub unreserved : ℕ → Bool
unreserved c =
    within 48 57 c
    || within 65 90 c
    || within 97 122 c
    || c == 45
    || c == 95
    || c == 46
    || c == 126
    || c == 33
    || c == 42
    || c == 39
    || c == 40
    || c == 41

-- What a surrogate adds to the output, and how many code units it takes after it.
unfoldable pub escape_pair : ℕ → Option ℕ → Str × ℕ
unfolding hex_table
escape_pair c none = ([], 0)
escape_pair c (some c2) =
    let cp = c % 1024 * 1024 + c2 % 1024 + 65536 in
    (
      hex_table (240 + cp / 262144)
          ++ hex_table (128 + cp / 4096 % 64)
          ++ hex_table (128 + cp / 64 % 64)
          ++ hex_table (128 + cp % 64),
      1,
    )

-- One round of the loop of `escape`.
unfoldable pub escape_unit : ℕ → Option ℕ → Str × ℕ
unfolding hex_table unreserved escape_pair
escape_unit c next =
    if unreserved c
    then (c ∷ [], 0)
    else if c == 32
    then (b'+' ∷ [], 0)
    else if ltb c 128
    then (hex_table c, 0)
    else if ltb c 2048
    then (hex_table (192 + c / 64) ++ hex_table (128 + c % 64), 0)
    else if ltb c 55296 || leb 57344 c
    then (
      hex_table (224 + c / 4096) ++ hex_table (128 + c / 64 % 64) ++ hex_table (128 + c % 64),
      0,
    )
    else escape_pair c next

-- The loop, on what is left of the string, of which `skip` units are taken already.
unfoldable pub escape_from : ℕ → Str → Str
unfolding escape_unit
escape_from skip [] = []
escape_from (suc skip) (_ ∷ s) = escape_from skip s
escape_from zero (c ∷ s) =
    let (out, extra) = escape_unit c (get_elem? s 0) in out ++ escape_from extra s

unfoldable pub escape : Str → Str
unfolding escape_from
escape = escape_from 0

-- decodeURIComponent, from the language's definition of it. The value of a hexadecimal digit:
unfoldable pub hex_value : ℕ → Option ℕ
hex_value c =
    if within 48 57 c
    then some (c - 48)
    else if within 65 70 c
    then some (c - 55)
    else if within 97 102 c
    then some (c - 87)
    else none

-- The octet that `%XY` at the front stands for.
unfoldable pub octet : Str → Option ℕ
unfolding hex_value
octet (p ∷ x ∷ y ∷ _) =
    let value : Option ℕ = elim (hex_value x) [
      | none ↦ none
      | some h ↦ Option.map (λ (l : ℕ). h * 16 + l) (hex_value y)
    ] in
    if p == b'%' then value else none
octet _ = none

unfoldable pub octets : ℕ → Str → Option Bytes
unfolding octet
octets zero s = some []
octets (suc n) s =
    let rest : Option Bytes = octets n (drop 3 s) in
    elim (octet s) [ none ↦ none | some b ↦ Option.map (λ (bs : Bytes). b ∷ bs) rest ]

-- The number of octets that the first one asks for, or 0.
unfoldable pub octet_count : ℕ → ℕ
octet_count b =
    if ltb b 0x80
    then 1
    else if b / 32 == 6
    then 2
    else if b / 16 == 14
    then 3
    else if b / 8 == 30
    then 4
    else 0

unfoldable pub point_of : Bytes → ℕ
point_of (b ∷ []) = b
point_of (b0 ∷ b1 ∷ []) = b0 % 32 * 64 + b1 % 64
point_of (b0 ∷ b1 ∷ b2 ∷ []) = b0 % 16 * 4096 + b1 % 64 * 64 + b2 % 64
point_of (b0 ∷ b1 ∷ b2 ∷ b3 ∷ []) = b0 % 8 * 262144 + b1 % 64 * 4096 + b2 % 64 * 64 + b3 % 64
point_of _ = 0

-- The octets are the UTF-8 encoding of a scalar value.
unfoldable pub is_valid : Bytes → Bool
unfolding point_of str_eq
is_valid bs =
    let c = point_of bs in str_eq (bytes c) bs && ltb c 0x110000 && (ltb c 0xd800 || leb 0xe000 c)

unfoldable pub uri_octets : ℕ → Str → Option (Str × ℕ)
unfolding octets octet_count is_valid point_of
uri_octets b s =
    let n = octet_count b in
    elim (octets n s) [
      | none ↦ none
      | some bs ↦ if is_valid bs then some (units (point_of bs), n * 3) else none
    ]

-- The units that the front of the string stands for, and how many units they are written with.
-- `none` is the URIError.
unfoldable pub uri_round : ℕ → Str → Option (Str × ℕ)
unfolding uri_octets octet
uri_round c s =
    if c == b'%' then elim (octet s) [ none ↦ none | some b ↦ uri_octets b s ] else some (c ∷ [], 1)

unfoldable pub decode_uri_from : ℕ → Str → Option Str
unfolding uri_round
decode_uri_from skip [] = some []
decode_uri_from (suc skip) (_ ∷ s) = decode_uri_from skip s
decode_uri_from zero (c ∷ s) = elim (uri_round c (c ∷ s)) [
  | none ↦ none
  | some r ↦ Option.map (λ (rest : Str). r.0 ++ rest) (decode_uri_from (r.1 - 1) s)
]

unfoldable pub decode_uri_component : Str → Option Str
unfolding decode_uri_from
decode_uri_component = decode_uri_from 0

unfoldable pub unescape : Str → Str
unfolding decode_uri_component split join
unescape s = elim (decode_uri_component (join b' ' (split b'+' s))) [ none ↦ s | some t ↦ t ]
