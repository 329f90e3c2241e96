-- ===== src/Http/Bodies/Exact.antt =====
-- How much `consumeIncomingBody` of http_core.js takes.
use jaseci.Prelude.{
  ◌^◌, ℕ, zero, suc, ◌+◌, ◌-◌, ◌≤◌, true, false, List, [], ◌++◌, some, ltb, if◌then◌else◌, Str,
  codes, length, drop, drop-append, length-append, length-drop, Bool-cases, Option-cases, inl, inr,
  ◌⊎◌, ltb→le, le→ltb, ◌≡◌, refl, ap, ap₂, sym, ◌∙◌, arith, if_true, if_both, subst,
}
use jaseci.Numerals.{to_string, Parsed, number, minus, parse_int}
use jaseci.Numerals.Decimal.{to_number-to_string}
use jaseci.Http.{slice, substring, find_crlf}
use jaseci.Http.Lines.{slice-middle}
use jaseci.Http.Objects.{get}
use jaseci.Http.Headers.{Entry, text}
use jaseci.Http.Chunked.{
  Decoded, incomplete, decoded, out_of_fuel, decode_loop, decode_chunked_section, write_chunks,
  last_chunk,
}
use jaseci.Http.Chunked.RoundTrip.{joined, decode_chunked_section-write_chunks}
use jaseci.Http.Bodies.{
  Length, natural, negative, nan, length_of, Consumed, partial, consumed, consumed_nan,
  consumed_below, unread, endless, of_chunks, of_length, is_chunked, content_length,
  consume_incoming_body,
}

abbrev Bounded : ℕ → Decoded → Type 0
Bounded size incomplete = Unit
Bounded size (decoded body n) = n ≤ size
Bounded size out_of_fuel = Unit

Parsed-cases : (p : Parsed) → (p ≡ Parsed.nan) ⊎ ((n : ℕ) × ((p ≡ number n) ⊎ (p ≡ minus n)))
Parsed-cases Parsed.nan = inl refl
Parsed-cases (number n) = inr (n, inl refl)
Parsed-cases (minus n) = inr (n, inr refl)

limit_respected :
    (size limit n : ℕ) (body : Str)
    → n ≡ limit
    → Bounded size (if ltb size limit then incomplete else decoded body n)
limit_respected size limit n body e = elim (Bool-cases (ltb size limit)) [
  | inl f ↦ rw f tt
  | inr f ↦ rw f (omega (arith, ltb→le size limit f))
]

-- Whatever stands in the sizes, no more is consumed than there is.
decode_loop-Bounded :
    (fuel : ℕ) (buf : Str) (pos : ℕ) (body : Str)
    → Bounded (length buf) (decode_loop fuel buf pos body)
unfolding decode_loop
decode_loop-Bounded zero buf pos body = tt
decode_loop-Bounded (suc fuel) buf pos body = elim (Option-cases (find_crlf buf pos)) [
  | inl e ↦ rw (e, decode_loop) tt
  | inr (nl, e) ↦ elim (Parsed-cases (parse_int 16 (slice pos nl buf))) [
    | inl f ↦ rw (e, decode_loop, f) tt
    | inr (zero, inl f) ↦
        rw (e, decode_loop, f) (limit_respected (length buf) (nl + 2 + 2) (nl + 2 + 2) body refl)
    | inr (suc n, inl f) ↦
        rw (e, decode_loop, f)
          (if_both (Bounded (length buf)) (ltb (length buf) (nl + 2 + suc n + 2)) incomplete _ tt
            (decode_loop-Bounded fuel buf (nl + 2 + suc n + 2) _))
    | inr (n, inr f) ↦
        let rest =
          decode_loop fuel buf (nl + 2 + 2 - n) (body ++ substring (nl + 2) (nl + 2 - n) buf) in
        let inner = if ltb (length buf) (nl + 2 + 2 - n) then incomplete else rest in
        rw (e, decode_loop, f)
          (if_both (Bounded (length buf)) (ltb (nl + 2 + 2 + (2 ^ 53 + 2)) n) out_of_fuel inner tt (
            if_both (Bounded (length buf)) (ltb (length buf) (nl + 2 + 2 - n)) incomplete rest tt
              (decode_loop-Bounded fuel buf (nl + 2 + 2 - n) _)))
  ]
]

abbrev Within : ℕ → Consumed → Type 0
Within size partial = Unit
Within size (consumed body n) = n ≤ size
Within size unread = Unit
Within size consumed_nan = Unit
Within size (consumed_below n) = Unit
Within size endless = Unit

of_chunks-Within :
    (size start : ℕ) (d : Decoded)
    → start ≤ size
    → Bounded (size - start) d
    → Within size (of_chunks start d)
unfolding of_chunks
of_chunks-Within size start incomplete h k = tt
of_chunks-Within size start (decoded body n) h k = omega arith
of_chunks-Within size start out_of_fuel h k = tt

of_length-Within :
    (buffer : Str) (start : ℕ) (n : Length) → Within (length buffer) (of_length buffer start n)
unfolding of_length
of_length-Within buffer start unread = tt
of_length-Within buffer start nan = tt
of_length-Within buffer start (negative n) = elim (Bool-cases (ltb (length buffer + n) start)) [
  | inl f ↦ rw f tt
  | inr f ↦
      let room = ltb→le (length buffer + n) start f in
      rw f (
        if_both (Within (length buffer)) (ltb start n) (consumed_below (n - start))
          (consumed [] (start - n)) tt (omega (arith, room)))
]
of_length-Within buffer start (natural n) = elim (Bool-cases (ltb (length buffer) (start + n))) [
  | inl f ↦ rw f tt
  | inr f ↦ rw f (ltb→le (length buffer) (start + n) f)
]

-- Where a natural number is consumed, it is no more than the buffer holds, whatever the sizes of the chunks
-- are, and for a `Content-Length` without a fraction and an exponent.
pub consume_incoming_body-le :
    (buffer : Str) (start : ℕ) (headers : List (Str × Entry)) {body : Str} {n : ℕ}
    → start ≤ length buffer
    → consume_incoming_body buffer start headers ≡ consumed body n
    → n ≤ length buffer
unfolding consume_incoming_body decode_chunked_section
consume_incoming_body-le buffer start headers {body} {n} h e = subst (Within (length buffer)) e (
    if_both (Within (length buffer)) (is_chunked (get headers (codes "transfer-encoding"))) _ _
      (of_chunks-Within (length buffer) start (decode_chunked_section (drop start buffer)) h (
        subst (λ (k : ℕ). Bounded k (decode_chunked_section (drop start buffer)))
          (length-drop start buffer)
          (decode_loop-Bounded (suc (length (drop start buffer))) (drop start buffer) 0 [])))
      (of_length-Within buffer start (content_length (get headers (codes "content-length")))))

-- A body of which `Content-Length` is the length is taken as a whole, and what follows it is left.
pub consume_incoming_body-length :
    (head body rest : Str) (headers : List (Str × Entry))
    → is_chunked (get headers (codes "transfer-encoding")) ≡ false
    → get headers (codes "content-length") ≡ some (text (to_string 10 (length body)))
    → consume_incoming_body (head ++ (body ++ rest)) (length head) headers
      ≡ consumed body (length (head ++ body))
unfolding consume_incoming_body content_length length_of of_length
consume_incoming_body-length head body rest headers h k =
    let room : ltb (length (head ++ (body ++ rest))) (length head + length body) ≡ false =
      le→ltb _ _ (omega (arith, length-append body rest, length-append head (body ++ rest))) in
    rw (h, k, content_length, length_of, to_number-to_string (length body), room)
      (ap₂ consumed (slice-middle head body rest) (sym (length-append head body)))

-- A body that was sent in chunks is put together, and what follows the last chunk is left.
pub consume_incoming_body-chunks :
    (head : Str) (chunks : List Str) (rest : Str) (headers : List (Str × Entry))
    → is_chunked (get headers (codes "transfer-encoding")) ≡ true
    → consume_incoming_body
        (head ++ (write_chunks chunks ++ (last_chunk ++ rest)))
        (length head)
        headers
      ≡ consumed (joined chunks) (length (head ++ (write_chunks chunks ++ last_chunk)))
unfolding consume_incoming_body of_chunks
consume_incoming_body-chunks head chunks rest headers h =
    let sent = write_chunks chunks ++ (last_chunk ++ rest) in
    let whole = head ++ sent in
    let plain =
      of_length whole (length head) (content_length (get headers (codes "content-length"))) in
    if_true (of_chunks (length head) (decode_chunked_section (drop (length head) whole))) plain h
    ∙ ap (of_chunks (length head)) (
        ap decode_chunked_section (drop-append head sent)
        ∙ decode_chunked_section-write_chunks chunks rest)
    ∙ ap (consumed (joined chunks)) (sym (length-append head (write_chunks chunks ++ last_chunk)))
