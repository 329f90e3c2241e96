-- ===== src/Http/Bodies.antt =====
-- `consumeIncomingBody` of jac/js_engine/engine/src/builtins/js/http_core.js.
pub mod Exact
use jaseci.Prelude.{
  ℕ, zero, suc, ◌+◌, ◌-◌, ◌≤◌, ◌<◌, Bool, true, false, List, [], ◌∷◌, ◌++◌, Option, none, some, ltb,
  ◌==◌, if◌then◌else◌, Str, codes, length, take, drop, take-append, drop-append, length-append,
  append_assoc, to_lower_case, not, ◌&&◌, ◌||◌, starts_with, str_eq, index_of_text, Bool-cases,
  Option-cases, inl, inr, ltb→le, le→ltb, ◌≡◌, refl, ap, ap₂, sym, ◌∙◌, arith,
}
use jaseci.Numerals.{
  Numeric, integer, other, to_number, to_string, Parsed, number, minus, parse_int, leading_digits,
  all_digits, trim,
}
use jaseci.Numerals.Decimal.{to_number-to_string}
use jaseci.Http.{slice, substring, find_crlf}
use jaseci.Http.Objects.{get}
use jaseci.Http.Headers.{Entry, text, texts, shown}
use jaseci.Http.Chunked.{
  Decoded, incomplete, decoded, out_of_fuel, decode_loop, decode_chunked_section, write_chunks,
  last_chunk,
}
use jaseci.Http.Chunked.RoundTrip.{joined, decode_chunked_section-write_chunks}

-- What `Number` makes of a `Content-Length`: a natural number, a negative integer, NaN, or, not computed
-- here, the number of a literal with a fraction or an exponent, or Infinity.
pub data Length : Type 0 where
  natural : ℕ → Length
  negative : ℕ → Length
  nan : Length
  unread : Length

-- `partial` is the result null. The number consumed is `start + contentLength`; it is NaN or below zero
-- for `consumed_nan` and `consumed_below`, whose body is empty.
pub data Consumed : Type 0 where
  partial : Consumed
  consumed : Str → ℕ → Consumed
  consumed_nan : Consumed
  consumed_below : ℕ → Consumed
  unread : Consumed
  endless : Consumed

unfoldable pub of_chunks : ℕ → Decoded → Consumed
of_chunks start incomplete = partial
of_chunks start (decoded body size) = consumed body (start + size)
of_chunks start out_of_fuel = endless

-- The body of a length, where it is there.
unfoldable pub of_length : Str → ℕ → Length → Consumed
of_length buffer start unread = unread
of_length buffer start nan = consumed_nan
of_length buffer start (negative n) =
    if ltb (length buffer + n) start
    then partial
    else if ltb start n
    then consumed_below (n - start)
    else consumed [] (start - n)
of_length buffer start (natural n) =
    if ltb (length buffer) (start + n)
    then partial
    else consumed (slice start (start + n) buffer) (start + n)

-- `te && te.toLowerCase().indexOf("chunked") !== -1`; such a header is never an array
unfoldable pub is_chunked : Option Entry → Bool
unfolding to_lower_case index_of_text
is_chunked none = false
is_chunked (some e) = elim (index_of_text (codes "chunked") (to_lower_case (shown e))) [
  | none ↦ false
  | some i ↦ true
]

-- What is left behind the digits at the start
unfoldable pub after_digits : Str → Str
unfolding leading_digits
after_digits s = drop (length (leading_digits 10 s)) s

-- The exponent of a decimal literal, or nothing
unfoldable pub is_exponent : Str → Bool
unfolding after_digits
is_exponent [] = true
is_exponent (c ∷ []) = false
is_exponent (c ∷ d ∷ s) =
    let digits = if d == b'+' || d == b'-' then s else d ∷ s in
    (c == b'e' || c == b'E') && not (length digits == 0) && length (after_digits digits) == 0

-- What stands behind so many digits in a decimal literal: a fraction or none, and an exponent or none
unfoldable pub is_behind : ℕ → Str → Bool
unfolding is_exponent after_digits leading_digits
is_behind digits [] = not (digits == 0)
is_behind digits (c ∷ s) =
    if c == b'.'
    then not (digits + length (leading_digits 10 s) == 0) && is_exponent (after_digits s)
    else not (digits == 0) && is_exponent (c ∷ s)

-- A decimal literal without a sign
unfoldable pub is_decimal : Str → Bool
unfolding is_behind after_digits leading_digits
is_decimal s = is_behind (length (leading_digits 10 s)) (after_digits s)

-- `Number(s)` of a text that is no literal of digits only: a sign and digits, another decimal, or NaN
unfoldable pub other_length : Str → Length
unfolding all_digits is_decimal str_eq
other_length [] = nan
other_length (c ∷ s) =
    let signed = c == b'+' || c == b'-' in
    let unsigned = if signed then s else c ∷ s in
    elim (all_digits 10 unsigned) [
      | integer n ↦
          if not signed || length s == 0
          then nan
          else if c == b'-' && not (n == 0)
          then negative n
          else natural n
      | other t ↦ if str_eq unsigned (codes "Infinity") || is_decimal unsigned then unread else nan
    ]

unfoldable pub length_of : Str → Length
unfolding to_number other_length trim
length_of s = elim (to_number s) [ integer n ↦ natural n | other t ↦ other_length (trim s) ]

unfoldable pub content_length : Option Entry → Length
unfolding length_of
content_length none = natural 0
content_length (some e) = length_of (shown e)

unfoldable pub consume_incoming_body : Str → ℕ → List (Str × Entry) → Consumed
unfolding get is_chunked content_length decode_chunked_section of_chunks of_length
consume_incoming_body buffer start headers =
    if is_chunked (get headers (codes "transfer-encoding"))
    then of_chunks start (decode_chunked_section (drop start buffer))
    else of_length buffer start (content_length (get headers (codes "content-length")))
