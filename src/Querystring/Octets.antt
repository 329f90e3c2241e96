-- ===== src/Querystring/Octets.antt =====
-- decodeURIComponent reads what `%XY` writes.
use jaseci.Prelude.{
  ℕ, suc, ◌*◌, ◌/◌, ◌%◌, ◌<◌, ◌≤◌, true, [], ◌∷◌, ◌++◌, some, Str, str_eq, str_eq_iff, length, drop,
  ◌≡◌, ◌≢◌, refl, ap, ◌∙◌, arith, All, append_assoc,
}
use mathlib.Core.Option
use jaseci.Unicode.{Bytes, units, bytes, IsScalar}
use jaseci.Unicode.Cases.{bytes_cases, bytes-ne-nil, two, three, four}
use jaseci.Querystring.{
  hex_char, hex_table, hex_value, octet, octets, octet_count, point_of, is_valid, uri_octets,
  uri_round,
}
use jaseci.Querystring.Escape.{percent}

hex_value-hex_char : (d : ℕ) → d < 16 → hex_value (hex_char d) ≡ some d
unfolding hex_value hex_char
hex_value-hex_char d h = ground arith

pub octet-hex_table : (b : ℕ) (rest : Str) → b < 256 → octet (hex_table b ++ rest) ≡ some b
unfolding octet hex_table
octet-hex_table b rest h =
    rw (hex_value-hex_char (b / 16) (ground arith), hex_value-hex_char (b % 16) (ground arith))
      (ap some (ground arith))

octets-suc :
    (n b : ℕ) (s : Str) (bs : Bytes)
    → octet s ≡ some b
    → octets n (drop 3 s) ≡ some bs
    → octets (suc n) s ≡ some (b ∷ bs)
unfolding octets
octets-suc n b s bs h k = rw (h, octets) (ap (Option.map (λ (bs : Bytes). b ∷ bs)) k)

drop_hex : (b : ℕ) (rest : Str) → drop 3 (hex_table b ++ rest) ≡ rest
unfolding hex_table
drop_hex b rest = refl

octets-percent :
    (bs : Bytes) (rest : Str)
    → All (λ b. b < 256) bs
    → octets (length bs) (percent bs ++ rest) ≡ some bs
octets-percent [] rest h = unfold octets in refl
octets-percent (b ∷ bs) rest h = rw (append_assoc (hex_table b) (percent bs) rest) (
    octets-suc (length bs) b _ bs (octet-hex_table b (percent bs ++ rest) h.0)
      (ap (octets (length bs)) (drop_hex b _) ∙ octets-percent bs rest h.1))

module _ (c : ℕ) where
  point-one : c < 0x80 → point_of (c ∷ []) ≡ c
  unfolding point_of
  point-one k = refl

  point-two : 0x80 ≤ c → c < 0x800 → point_of (two c) ≡ c
  unfolding point_of
  point-two k l = ground arith

  point-three : 0x800 ≤ c → c < 0x10000 → point_of (three c) ≡ c
  unfolding point_of
  point-three k l = ground arith

  point-four : 0x10000 ≤ c → c < 0x110000 → point_of (four c) ≡ c
  unfolding point_of
  point-four k l = ground arith

  point_of-bytes : IsScalar c → point_of (bytes c) ≡ c
  point_of-bytes h =
      bytes_cases (λ b u. point_of b ≡ c) c point-one point-two point-three (λ k. point-four k h.0)

  pub bytes-small : IsScalar c → All (λ b. b < 256) (bytes c)
  bytes-small h =
      bytes_cases (λ b u. All (λ b. b < 256) b) c (λ k. (omega arith, tt))
        (λ k l. (ground arith, (ground arith, tt)))
        (λ k l. (ground arith, (ground arith, (ground arith, tt))))
        (λ k. (ground (arith, h.0), (ground arith, (ground arith, (ground arith, tt)))))

  is_valid-bytes : IsScalar c → is_valid (bytes c) ≡ true
  unfolding is_valid
  is_valid-bytes h =
      let same : str_eq (bytes c) (bytes c) ≡ true = (str_eq_iff (bytes c) (bytes c)).1 refl in
      rw (point_of-bytes h, same) (ground (arith, h.0, h.1))

abbrev first : Bytes → ℕ
first [] = 0
first (b ∷ bs) = b

-- The first octet tells how many there are.
octet_count-bytes : (c : ℕ) → IsScalar c → octet_count (first (bytes c)) ≡ length (bytes c)
unfolding octet_count
octet_count-bytes c h =
    bytes_cases (λ b u. octet_count (first b) ≡ length b) c (λ k. ground arith)
      (λ k l. ground arith) (λ k l. ground arith) (λ k. ground (arith, h.0))

uri_octets-some :
    (b n : ℕ) (s : Str) (bs : Bytes)
    → octet_count b ≡ n
    → octets n s ≡ some bs
    → is_valid bs ≡ true
    → uri_octets b s ≡ some (units (point_of bs), n * 3)
unfolding uri_octets
uri_octets-some b n s bs h k v =
    rw (h, uri_octets)
      (rw (k, uri_octets) (rw v (ap (λ (m : ℕ). some (units (point_of bs), m * 3)) h)))

octet-percent :
    (bs : Bytes) (rest : Str)
    → bs ≢ []
    → All (λ b. b < 256) bs
    → octet (percent bs ++ rest) ≡ some (first bs)
octet-percent [] rest h k = absurd (h refl)
octet-percent (b ∷ bs) rest h k =
    rw (append_assoc (hex_table b) (percent bs) rest) (octet-hex_table b (percent bs ++ rest) k.0)

-- A round reads the octets of a scalar value.
pub uri_round-percent :
    (c : ℕ) (rest : Str)
    → IsScalar c
    → uri_round b'%' (percent (bytes c) ++ rest) ≡ some (units c, length (bytes c) * 3)
unfolding uri_round
uri_round-percent c rest h =
    rw (octet-percent (bytes c) rest (bytes-ne-nil c) (bytes-small c h), uri_round)
      (uri_octets-some (first (bytes c)) (length (bytes c)) _ (bytes c) (octet_count-bytes c h)
          (octets-percent (bytes c) rest (bytes-small c h)) (is_valid-bytes c h)
        ∙ rw (point_of-bytes c h) refl)
