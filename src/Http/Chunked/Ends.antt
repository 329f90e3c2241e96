-- ===== src/Http/Chunked/Ends.antt =====
-- `decodeChunkedSection` of http_core.js ends where no minus sign is in the buffer.
use jaseci.Prelude.{
  shift, ℕ, zero, suc, ◌+◌, ◌-◌, ◌≤◌, ◌<◌, List, [], ◌∷◌, none, some, Str, length, take, drop, ltb,
  if_both, ltb→le, ne→==, Bool-cases, Option-cases, inl, inr, Option, ◌⊎◌, ◌≡◌, ◌≢◌, refl, arith,
  Free, All,
}
use jaseci.Numerals.{
  Parsed, nan, number, minus, is_space, trim_start, parse_digits, parse_signed, parse_int,
  leading_digits, horner,
}
use jaseci.Http.{slice, crlf_index, find_crlf}
use jaseci.Http.Chunked.{
  Decoded, incomplete, decoded, out_of_fuel, decode_loop, decode_chunked_section,
}

module _ (P : ℕ → Type 0) where
  All-drop : (n : ℕ) (s : Str) → All P s → All P (drop n s)
  All-drop zero s h = h
  All-drop (suc n) [] h = tt
  All-drop (suc n) (c ∷ s) h = All-drop n s h.1

  All-take : (n : ℕ) (s : Str) → All P s → All P (take n s)
  All-take zero s h = tt
  All-take (suc n) [] h = tt
  All-take (suc n) (c ∷ s) h = (h.0, All-take n s h.1)

abbrev NotMinus : Parsed → Type 0
NotMinus nan = Unit
NotMinus (number n) = Unit
NotMinus (minus n) = ⊥

parse_digits-NotMinus : (base : ℕ) (s : Str) → NotMinus (parse_digits base s)
unfolding parse_digits
parse_digits-NotMinus base s =
    elim (leading_digits base s)
      as (λ (ds : List ℕ).
        NotMinus (elim ds [ [] ↦ nan | d ∷ ds ↦ number (horner base 0 (d ∷ ds)) ])) [
          | [] ↦ tt
          | d ∷ ds ↦ tt
        ]

parse_signed-NotMinus : (base : ℕ) (s : Str) → Free b'-' s → NotMinus (parse_signed base s)
unfolding parse_signed
parse_signed-NotMinus base [] h = tt
parse_signed-NotMinus base (c ∷ s) h =
    rw (ne→== c b'-' h.0, parse_signed) (parse_digits-NotMinus base _)

parse_int-NotMinus : (base : ℕ) (s : Str) → Free b'-' s → NotMinus (parse_int base s)
unfolding parse_int trim_start
parse_int-NotMinus base [] h = parse_signed-NotMinus base [] h
parse_int-NotMinus base (c ∷ s) h =
    if_both (λ (x : Str). NotMinus (parse_signed base x)) (is_space c) (trim_start s) (c ∷ s)
      (parse_int-NotMinus base s h.1) (parse_signed-NotMinus base (c ∷ s) h)

find_crlf-le : (buf : Str) (pos nl : ℕ) → find_crlf buf pos ≡ some nl → pos ≤ nl
unfolding find_crlf
find_crlf-le buf pos nl e = below (crlf_index (drop pos buf)) e
  where
    below : (o : Option ℕ) → shift pos o ≡ some nl → pos ≤ nl
    below none h = cc
    below (some i) h = ground (arith, h)

abbrev Ended : Decoded → Type 0
Ended d = d ≢ out_of_fuel

NotMinus-cases : (p : Parsed) → NotMinus p → (p ≡ nan) ⊎ ((n : ℕ) × (p ≡ number n))
NotMinus-cases nan h = inl refl
NotMinus-cases (number n) h = inr (n, refl)
NotMinus-cases (minus n) h = elim h [ ]

-- The loop ends where the fuel is more than what is left of the buffer.
decode_loop-ends :
    (fuel : ℕ) (buf : Str) (pos : ℕ) (body : Str)
    → Free b'-' buf
    → pos ≤ length buf
    → length buf - pos < fuel
    → Ended (decode_loop fuel buf pos body)
unfolding decode_loop
decode_loop-ends zero buf pos body h k l = absurd (omega arith)
decode_loop-ends (suc fuel) buf pos body h k l = elim (Option-cases (find_crlf buf pos)) [
  | inl e ↦ rw (e, decode_loop) (cc)
  | inr (nl, e) ↦
      let size = slice pos nl buf in
      let free : Free b'-' size = All-take _ (nl - pos) (drop pos buf) (All-drop _ pos buf h) in
      elim (NotMinus-cases (parse_int 16 size) (parse_int-NotMinus 16 size free)) [
        | inl f ↦ rw (e, decode_loop, f) (cc)
        | inr (zero, f) ↦
            rw (e, decode_loop, f)
              (if_both Ended (ltb (length buf) (nl + 2 + 2)) incomplete (decoded body (nl + 2 + 2))
                (cc) (cc))
        | inr (suc n, f) ↦ elim (Bool-cases (ltb (length buf) (nl + 2 + suc n + 2))) [
          | inl short ↦ rw (e, decode_loop, f, short) (cc)
          | inr room ↦
              rw (e, decode_loop, f, room)
                (decode_loop-ends fuel buf (nl + 2 + suc n + 2) _ h (ltb→le _ _ room) (
                  omega (
                    arith,
                    ltb→le (length buf) (nl + 2 + suc n + 2) room,
                    find_crlf-le buf pos nl e,
                  )))
        ]
      ]
]

-- The decoder ends, with a body or for want of bytes, on every buffer without a minus sign.
pub decode_chunked_section-ends :
    (buf : Str) → Free b'-' buf → decode_chunked_section buf ≢ out_of_fuel
unfolding decode_chunked_section
decode_chunked_section-ends buf h =
    decode_loop-ends (suc (length buf)) buf 0 [] h (omega arith) (omega arith)
