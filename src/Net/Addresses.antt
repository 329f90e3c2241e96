-- ===== src/Net/Addresses.antt =====
-- The IPv4 addresses of net.js as texts and as numbers.
use jaseci.Prelude.{
  ℕ, ◌+◌, ◌*◌, ◌/◌, ◌%◌, ◌^◌, ◌<◌, true, List, [], ◌∷◌, map, none, some, ◌==◌, if◌then◌else◌, Str,
  Free, split, join, split-join, length, ◌≡◌, refl, ap, subst, sym, ◌∙◌, arith, le→ltb,
}
use jaseci.Numerals.{digit, to_string, integer, to_number}
use jaseci.Numerals.Laws.{Digits, to_string-IsWritten}
use jaseci.Numerals.Decimal.{to_number-to_string}
use jaseci.Net.{is_digit, add_octet, add_octets, ipv4_to_int, int_to_ipv4}

digit-is_digit : (d : ℕ) → d < 10 → is_digit (digit d) ≡ true
unfolding is_digit digit
digit-is_digit d h = ground arith

map-Free : (ds : List ℕ) → Digits 10 ds → Free b'.' (map digit ds)
unfolding digit
map-Free [] h = tt
map-Free (d ∷ ds) h = (ground arith, map-Free ds h.1)

octet-Free : (o : ℕ) → Free b'.' (to_string 10 o)
octet-Free o =
    let w = to_string-IsWritten 10 o (omega arith) in
    subst (Free b'.') (sym w.units) (map-Free (w.first ∷ w.others) w.digits)

add_octet-to_string :
    (n o : ℕ) → o < 256 → add_octet n (to_string 10 o) ≡ some (n * 256 % 2 ^ 32 + o)
unfolding add_octet
add_octet-to_string n o h =
    let w = to_string-IsWritten 10 o (omega arith) in
    let read : to_number (digit w.first ∷ map digit w.others) ≡ integer o =
      ap to_number (sym w.units) ∙ to_number-to_string o in
    ap (add_octet n) w.units
    ∙ rw (digit-is_digit w.first w.digits.0, add_octet, read, le→ltb 255 o (omega arith)) refl

add_octets-octet :
    (n o : ℕ) (parts : List Str)
    → n < 2 ^ 24
    → o < 256
    → add_octets n (to_string 10 o ∷ parts) ≡ add_octets (n * 256 + o) parts
unfolding add_octets
add_octets-octet n o parts h k =
    rw (add_octet-to_string n o k, add_octets) (ap (λ (m : ℕ). add_octets m parts) (omega arith))

four-octets :
    (a b c d : ℕ)
    → a < 256
    → b < 256
    → c < 256
    → d < 256
    → add_octets 0 (to_string 10 a ∷ to_string 10 b ∷ to_string 10 c ∷ to_string 10 d ∷ [])
      ≡ some ((((0 * 256 + a) * 256 + b) * 256 + c) * 256 + d)
unfolding add_octets
four-octets a b c d ha hb hc hd =
    let n = (0 * 256 + a) * 256 + b in
    let last = to_string 10 d ∷ [] in
    add_octets-octet 0 a (to_string 10 b ∷ to_string 10 c ∷ last) (omega arith) ha
    ∙ add_octets-octet (0 * 256 + a) b (to_string 10 c ∷ last) (omega arith) hb
    ∙ add_octets-octet n c last (omega arith) hc
    ∙ add_octets-octet (n * 256 + c) d [] (omega arith) hd
    ∙ ap some (omega arith)

-- The text of a number gives back the number, of which 32 bits count.
pub ipv4_to_int-int_to_ipv4 : (n : ℕ) → ipv4_to_int (int_to_ipv4 n) ≡ some (n % 2 ^ 32)
unfolding ipv4_to_int int_to_ipv4 join
ipv4_to_int-int_to_ipv4 n =
    let m = n % 2 ^ 32 in
    let a = m / 2 ^ 24 % 256 in
    let b = m / 2 ^ 16 % 256 in
    let c = m / 2 ^ 8 % 256 in
    let d = m % 256 in
    let parts = to_string 10 a ∷ to_string 10 b ∷ to_string 10 c ∷ to_string 10 d ∷ [] in
    let pieces : split b'.' (join b'.' parts) ≡ parts =
      split-join b'.' parts (λ e. cc)
        (octet-Free a, (octet-Free b, (octet-Free c, (octet-Free d, tt)))) in
    ap (λ (p : List Str). if length p == 4 then add_octets 0 p else none) pieces
    ∙ four-octets a b c d (omega arith) (omega arith) (omega arith) (omega arith)
    ∙ ap some (omega arith)
