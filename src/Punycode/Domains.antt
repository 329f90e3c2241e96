-- ===== src/Punycode/Domains.antt =====
-- The domain functions of punycode.js: `_mapDomain`, `toASCII` and `toUnicode`.
use jaseci.Prelude.{
  ℕ, ◌<◌, Bool, false, ◌&&◌, ◌||◌, List, [], ◌∷◌, ◌++◌, ltb, leb, ◌==◌, if◌then◌else◌, if_both,
  Bool-cases, inl, inr, Str, codes, length, drop, split, join, cons_head, join-split, ◌≡◌, refl, ap,
  subst, arith, All, All-append,
}
use jaseci.Punycode.{Result, ok, ◌>>=◌, encode, decode}
use jaseci.Punycode.Fuel.{NeverStuck, >>=-NeverStuck, decode-NeverStuck}
use jaseci.Punycode.Ascii.{IsAscii, Holds, >>=-Holds, encode-IsAscii}

-- `fn` on every label, up to the first error.
unfoldable pub map_labels : (Str → Result Str) → List Str → Result (List Str)
map_labels fn [] = ok []
map_labels fn (label ∷ parts) =
    fn label >>= λ mapped. map_labels fn parts >>= λ rest. ok (mapped ∷ rest)

unfoldable pub map_domain : Str → (Str → Result Str) → Result Str
unfolding map_labels split join
map_domain domain fn = map_labels fn (split b'.' domain) >>= λ mapped. ok (join b'.' mapped)

unfoldable pub has_non_ascii : Str → Bool
has_non_ascii [] = false
has_non_ascii (c ∷ label) = leb 0x80 c || has_non_ascii label

unfoldable pub ascii_label : Str → Result Str
unfolding has_non_ascii encode
ascii_label label =
    let encoded = encode label >>= λ s. ok (codes "xn--" ++ s) in
    if has_non_ascii label then encoded else ok label

unfoldable pub to_ascii : Str → Result Str
unfolding map_domain ascii_label
to_ascii domain = map_domain domain ascii_label

unfoldable pub has_prefix : Str → Bool
has_prefix (a ∷ b ∷ c ∷ d ∷ _) = a == b'x' && b == b'n' && c == b'-' && d == b'-'
has_prefix _ = false

unfoldable pub unicode_label : Str → Result Str
unfolding has_prefix decode
unicode_label label =
    let decoded = decode (drop 4 label) in
    if ltb 4 (length label) && has_prefix label then decoded else ok label

unfoldable pub to_unicode : Str → Result Str
unfolding map_domain unicode_label
to_unicode domain = map_domain domain unicode_label

has_non_ascii-IsAscii : (s : Str) → has_non_ascii s ≡ false → IsAscii s
unfolding has_non_ascii
has_non_ascii-IsAscii [] h = tt
has_non_ascii-IsAscii (c ∷ s) h = (ground arith, has_non_ascii-IsAscii s (ground arith))

IsAscii-has_non_ascii : (s : Str) → IsAscii s → has_non_ascii s ≡ false
unfolding has_non_ascii
IsAscii-has_non_ascii [] h = refl
IsAscii-has_non_ascii (c ∷ s) h = ground (arith, h.0, IsAscii-has_non_ascii s h.1)

ascii_label-IsAscii : (label : Str) → Holds IsAscii (ascii_label label)
unfolding ascii_label
ascii_label-IsAscii label = elim (Bool-cases (has_non_ascii label)) [
  | inl e ↦ rw e (
      >>=-Holds IsAscii IsAscii (encode label) _ (encode-IsAscii label)
        λ s h. (omega arith, (omega arith, (omega arith, (omega arith, h)))))
  | inr e ↦ rw e (has_non_ascii-IsAscii label e)
]

map_labels-All :
    (P : Str → Type 0) (fn : Str → Result Str) (parts : List Str)
    → ((label : Str) → Holds P (fn label))
    → Holds (All P) (map_labels fn parts)
unfolding map_labels
map_labels-All P fn [] h = tt
map_labels-All P fn (label ∷ parts) h = >>=-Holds P (All P) (fn label) _ (h label) λ mapped p.
    >>=-Holds (All P) (All P) (map_labels fn parts) _ (map_labels-All P fn parts h) λ rest q. (p, q)

map_labels-same :
    (fn : Str → Result Str) (parts : List Str)
    → All (λ s. fn s ≡ ok s) parts
    → map_labels fn parts ≡ ok parts
unfolding map_labels
map_labels-same fn [] h = refl
map_labels-same fn (s ∷ parts) h = rw (h.0, map_labels-same fn parts h.1) refl

join-IsAscii : (parts : List Str) → All IsAscii parts → IsAscii (join b'.' parts)
unfolding join
join-IsAscii [] h = tt
join-IsAscii (s ∷ []) h = h.0
join-IsAscii (s ∷ t ∷ parts) h = All-append _ s _ h.0 (omega arith, join-IsAscii (t ∷ parts) h.1)

cons_head-IsAscii : (c : ℕ) (p : List Str) → c < 0x80 → All IsAscii p → All IsAscii (cons_head c p)
unfolding cons_head
cons_head-IsAscii c [] h k = ((h, tt), tt)
cons_head-IsAscii c (s ∷ p) h k = ((h, k.0), k.1)

split-IsAscii : (s : Str) → IsAscii s → All IsAscii (split b'.' s)
unfolding split
split-IsAscii [] h = (tt, tt)
split-IsAscii (c ∷ s) h =
    if_both (All IsAscii) (c == b'.') _ _ (tt, split-IsAscii s h.1)
      (cons_head-IsAscii c (split b'.' s) h.0 (split-IsAscii s h.1))

Holds-IsAscii : (domain : Str) → Holds IsAscii (to_ascii domain)
unfolding to_ascii map_domain
Holds-IsAscii domain =
    let parts = split b'.' domain in
    >>=-Holds (All IsAscii) IsAscii (map_labels ascii_label parts) _
      (map_labels-All IsAscii ascii_label parts ascii_label-IsAscii)
      λ mapped h. join-IsAscii mapped h

labels-same : (parts : List Str) → All IsAscii parts → All (λ s. ascii_label s ≡ ok s) parts
unfolding ascii_label
labels-same [] h = tt
labels-same (s ∷ parts) h = (rw (IsAscii-has_non_ascii s h.0) refl, labels-same parts h.1)

-- `toASCII` returns a domain of ASCII characters as it is.
pub to_ascii-IsAscii : (domain : Str) → IsAscii domain → to_ascii domain ≡ ok domain
unfolding to_ascii map_domain
to_ascii-IsAscii domain h =
    rw (map_labels-same ascii_label (split b'.' domain) (labels-same _ (split-IsAscii domain h)))
      (ap ok (join-split b'.' domain))

-- What `toASCII` returns for a domain, if it is no error, it returns for itself.
pub to_ascii-to_ascii :
    (domain result : Str) → to_ascii domain ≡ ok result → to_ascii result ≡ ok result
to_ascii-to_ascii domain result h =
    to_ascii-IsAscii result (subst (Holds IsAscii) h (Holds-IsAscii domain))

map_labels-NeverStuck :
    (fn : Str → Result Str) (parts : List Str)
    → ((label : Str) → NeverStuck (fn label))
    → NeverStuck (map_labels fn parts)
unfolding map_labels
map_labels-NeverStuck fn [] h = λ e. cc
map_labels-NeverStuck fn (label ∷ parts) h = >>=-NeverStuck (fn label) _ (h label) λ mapped.
    >>=-NeverStuck (map_labels fn parts) _ (map_labels-NeverStuck fn parts h) λ rest. λ e. cc

unicode_label-NeverStuck : (label : Str) → NeverStuck (unicode_label label)
unfolding unicode_label
unicode_label-NeverStuck label =
    if_both NeverStuck (ltb 4 (length label) && has_prefix label) _ (ok label)
      (decode-NeverStuck (drop 4 label)) (λ e. cc)

-- `toUnicode` returns a domain, or one of the errors of the source, on every input: no loop runs out
-- of fuel.
pub to_unicode-NeverStuck : (domain : Str) → NeverStuck (to_unicode domain)
unfolding to_unicode map_domain
to_unicode-NeverStuck domain =
    >>=-NeverStuck (map_labels unicode_label (split b'.' domain)) _
      (map_labels-NeverStuck unicode_label (split b'.' domain) unicode_label-NeverStuck)
      λ mapped. λ e. cc
