-- ===== src/Tests/Names.antt =====
-- Tests of punycode.js.
use jaseci.Prelude.{◌≡◌, refl, ◌∷◌, ◌++◌, codes, Str, arith, All}
use jaseci.Punycode.{ok, encode, decode, write_number, read_number}
use jaseci.Punycode.Ucs2.{IsUnit}
use jaseci.Punycode.Numbers.{read_number-write_number}
use jaseci.Punycode.Fuel.{NeverStuck, decode-NeverStuck}
use jaseci.Punycode.Handled.{encode-NeverStuck}
use jaseci.Punycode.Domains.{to_ascii, to_unicode}

-- "mañana"
abbrev manana : Str
manana = codes "ma" ++ 0xf1 ∷ codes "ana"

encode-manana : encode manana ≡ ok (codes "maana-pta")
unfolding encode
encode-manana = refl

decode-manana : decode (codes "maana-pta") ≡ ok manana
unfolding decode
decode-manana = refl

to_unicode-manana : to_unicode (codes "xn--maana-pta.com") ≡ ok (manana ++ codes ".com")
unfolding to_unicode
to_unicode-manana = refl

to_ascii-manana : to_ascii (manana ++ codes ".com") ≡ ok (codes "xn--maana-pta.com")
unfolding to_ascii
to_ascii-manana = refl

manana-IsUnit : All IsUnit manana
manana-IsUnit =
    (omega arith, (omega arith, (omega arith, (omega arith, (omega arith, (omega arith, tt))))))

encode-NeverStuck_example : NeverStuck (encode manana)
encode-NeverStuck_example = encode-NeverStuck manana manana-IsUnit

decode-NeverStuck_example : NeverStuck (decode (codes "maana-pta"))
decode-NeverStuck_example = decode-NeverStuck (codes "maana-pta")

read_number-write_number_example :
    (s : Str) × (write_number 1001 72 1000 36 ≡ ok s)
    × (read_number 72 3 1 36 (s ++ codes "abc") ≡ ok (1003, codes "abc"))
read_number-write_number_example = read_number-write_number 72 1000 3 (codes "abc") (omega arith)
