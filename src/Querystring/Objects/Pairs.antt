-- ===== src/Querystring/Objects/Pairs.antt =====
-- `parse` of querystring.js reads the pairs that `stringify` writes.
use jaseci.Prelude.{
  index_of-append, ℕ, suc, ◌-◌, ◌/◌, ◌%◌, ◌<◌, true, List, [], ◌∷◌, ◌++◌, ◌==◌, Str, length, take,
  drop, index_of, Free, ◌≡◌, ◌≢◌, refl, arith, All, All-append, Bool-cases, inl, inr, ne→==,
  take-append, if_false,
}
use jaseci.Unicode.{Bytes, bytes, utf16, IsScalar, Scalars}
use jaseci.Querystring.{hex_char, hex_table, unreserved, unescape, escape}
use jaseci.Querystring.Escape.{percent, written, written_text, escape-utf16}
use jaseci.Querystring.Octets.{bytes-small}
use jaseci.Querystring.Unescape.{unescape-escape}
use jaseci.Querystring.Objects.{key_value, pair_text}

-- What a code unit of an escaped text is not: a separator.
abbrev pub IsClean : ℕ → Type 0
IsClean c = (c ≢ b'&') × (c ≢ b'=')

hex_char-IsClean : (d : ℕ) → d < 16 → IsClean (hex_char d)
unfolding hex_char
hex_char-IsClean d h = ground arith

hex_table-IsClean : (b : ℕ) → b < 256 → All IsClean (hex_table b)
unfolding hex_table
hex_table-IsClean b h = (
  ground arith,
  (hex_char-IsClean (b / 16) (ground arith), (hex_char-IsClean (b % 16) (ground arith), tt)),
)

percent-IsClean : (bs : Bytes) → All (λ b. b < 256) bs → All IsClean (percent bs)
percent-IsClean [] h = tt
percent-IsClean (b ∷ bs) h =
    All-append IsClean (hex_table b) (percent bs) (hex_table-IsClean b h.0) (percent-IsClean bs h.1)

unreserved-IsClean : (c : ℕ) → unreserved c ≡ true → IsClean c
unfolding unreserved
unreserved-IsClean c h = ground arith

written-IsClean : (c : ℕ) → IsScalar c → All IsClean (written c)
written-IsClean c h = elim (Bool-cases (unreserved c)) [
  | inl e ↦ rw e (unreserved-IsClean c e, tt)
  | inr e ↦ elim (Bool-cases (c == 32)) [
    | inl f ↦ rw (e, f) (ground arith, tt)
    | inr f ↦ rw (e, f) (percent-IsClean (bytes c) (bytes-small c h))
  ]
]

written_text-IsClean : (cs : List ℕ) → Scalars cs → All IsClean (written_text cs)
written_text-IsClean [] h = tt
written_text-IsClean (c ∷ cs) h =
    All-append IsClean (written c) (written_text cs) (written-IsClean c h.0)
      (written_text-IsClean cs h.1)

pub escape-IsClean : (cs : List ℕ) → Scalars cs → All IsClean (escape (utf16 cs))
escape-IsClean cs h = rw (escape-utf16 cs h) (written_text-IsClean cs h)

Free-eq : (s : Str) → All IsClean s → Free b'=' s
Free-eq [] h = tt
Free-eq (c ∷ s) h = (h.0.1, Free-eq s h.1)

Free-amp : (s : Str) → All IsClean s → Free b'&' s
Free-amp [] h = tt
Free-amp (c ∷ s) h = (h.0.0, Free-amp s h.1)

-- A pair holds no `&`.
pub pair_text-Free :
    (ks vs : List ℕ) → Scalars ks → Scalars vs → Free b'&' (pair_text b'=' (utf16 ks) (utf16 vs))
unfolding pair_text
pair_text-Free ks vs h k =
    All-append (λ x. x ≢ b'&') (escape (utf16 ks)) _ (Free-amp _ (escape-IsClean ks h))
      ((λ e. ground (arith, e)), Free-amp _ (escape-IsClean vs k))

take-before : (a b : Str) → take (suc (length a) - 1) (a ++ b) ≡ a
take-before a b = let e : suc (length a) - 1 ≡ length a = omega arith in rw e (take-append a b)

drop-after : (a : Str) (c : ℕ) (b : Str) → drop (suc (length a)) (a ++ c ∷ b) ≡ b
drop-after [] c b = refl
drop-after (x ∷ a) c b = drop-after a c b

-- A pair is read as the key and the value that it was written for.
pub key_value-pair_text :
    (ks vs : List ℕ)
    → Scalars ks
    → Scalars vs
    → key_value b'=' (pair_text b'=' (utf16 ks) (utf16 vs)) ≡ (utf16 ks, utf16 vs)
unfolding key_value pair_text
key_value-pair_text ks vs h k =
    let a = escape (utf16 ks) in
    let b = escape (utf16 vs) in
    let at : index_of (a ++ b'=' ∷ b) b'=' ≡ suc (length a) =
      index_of-append b'=' a b (Free-eq a (escape-IsClean ks h)) in
    let key : take (suc (length a) - 1) (a ++ b'=' ∷ b) ≡ a = take-before a (b'=' ∷ b) in
    let val : drop (suc (length a)) (a ++ b'=' ∷ b) ≡ b = drop-after a b'=' b in
    rw (at, key, val, unescape-escape ks h, unescape-escape vs k)
      (if_false (unescape (a ++ b'=' ∷ b), []) (utf16 ks, utf16 vs)
        (ne→== (suc (length a)) 0 (λ e. omega arith)))
