-- ===== src/Http/Heads.antt =====
-- The head of a message: `parseHeaderBlock`, `parseRequestHead` and `parseResponseHead` of
-- jac/js_engine/engine/src/builtins/js/http_core.js.
pub mod Sections
pub mod Written
pub mod RoundTrip
pub mod Responses
use jaseci.Prelude.{
  ℕ, zero, suc, ◌+◌, ◌-◌, Bool, List, [], ◌∷◌, ◌++◌, Option, none, some, ltb, ◌==◌, if◌then◌else◌,
  Str, codes, length, take, drop, index_of, index_of_text,
}
use jaseci.Numerals.{Numeric, integer, to_number}
use jaseci.Http.{crlf, split_header_lines}
use jaseci.Http.Headers.{Field, Headers, finalize_headers}

-- The loop that takes spaces from the front of a value.
unfoldable pub skip_spaces : Str → Str
skip_spaces [] = []
skip_spaces (c ∷ s) = let rest = skip_spaces s in if c == b' ' then rest else c ∷ s

-- The loop over the lines behind the first: a line without a name before a colon is left out.
-- `index_of` is the place plus one.
unfoldable pub header_fields : List Str → List Field
unfolding index_of skip_spaces
header_fields [] = []
header_fields (line ∷ lines) =
    let rest = header_fields lines in
    let colon = index_of line b':' in
    if ltb 1 colon then (take (colon - 1) line, skip_spaces (drop colon line)) ∷ rest else rest

-- `s.replace(pattern, "")`
unfoldable pub without : Str → Str → Str
unfolding index_of_text
without pattern s = elim (index_of_text pattern s) [
  | none ↦ s
  | some i ↦ take i s ++ drop (i + length pattern) s
]

-- How a parse ends: with null, with a TypeError of `finalizeHeaders`, or with a head.
pub data Parse {ℓ} (A : Type ℓ) : Type ℓ where
  null : Parse A
  throws : Parse A
  parsed : A → Parse A

-- `parseHeaderBlock`
unfoldable pub parse_header_block : Str → Bool → Parse Headers
unfolding split_header_lines header_fields finalize_headers
parse_header_block section join = elim (split_header_lines section) [
  | [] ↦ null
  | line ∷ lines ↦ elim (finalize_headers (header_fields lines) join) [
    | none ↦ throws
    | some headers ↦ parsed headers
  ]
]

pub record RequestHead : Type 0 where
  pub method : Str
  pub url : Str
  pub http_version : Str
  pub headers : Headers
  pub raw_headers : List Field
  pub header_size : ℕ

-- The head of a request, if `finalizeHeaders` gives the objects.
unfoldable pub request_with : Str → Str → Str → List Field → ℕ → Option Headers → Parse RequestHead
request_with method url version fields size none = throws
request_with method url version fields size (some headers) = parsed (record {
  method = method;
  url = url;
  http_version = version;
  headers = headers;
  raw_headers = fields;
  header_size = size;
})

-- What is made of a request line and the fields behind it.
unfoldable pub request_of : Str → List Field → ℕ → Bool → Parse RequestHead
unfolding index_of without finalize_headers request_with
request_of line fields size join =
    let sp1 = index_of line b' ' in
    let rest = drop sp1 line in
    let sp2 = index_of rest b' ' in
    if sp1 == 0
    then null
    else if sp2 == 0
    then null
    else request_with (take (sp1 - 1) line) (take (sp2 - 1) rest)
        (without (codes "HTTP/") (drop sp2 rest)) fields size (finalize_headers fields join)

unfoldable pub parse_request_head : Str → Bool → Parse RequestHead
unfolding index_of_text split_header_lines header_fields request_of
parse_request_head raw join = elim (index_of_text (crlf ++ crlf) raw) [
  | none ↦ null
  | some end ↦ elim (split_header_lines (take end raw)) [
    | [] ↦ null
    | line ∷ lines ↦ request_of line (header_fields lines) (end + 4) join
  ]
]

pub record ResponseHead : Type 0 where
  pub status_code : Numeric
  pub status_message : Str
  pub http_version : Str
  pub headers : Headers
  pub raw_headers : List Field
  pub header_size : ℕ

unfoldable pub response_with :
    Numeric → Str → Str → List Field → ℕ → Option Headers → Parse ResponseHead
response_with code message version fields size none = throws
response_with code message version fields size (some headers) = parsed (record {
  status_code = code;
  status_message = message;
  http_version = version;
  headers = headers;
  raw_headers = fields;
  header_size = size;
})

unfoldable pub response_of : Str → List Field → ℕ → Bool → Parse ResponseHead
unfolding index_of without finalize_headers to_number response_with
response_of line fields size join =
    let sp1 = index_of line b' ' in
    let rest = drop sp1 line in
    let sp2 = index_of rest b' ' in
    if sp1 == 0
    then null
    else response_with (to_number (if sp2 == 0 then rest else take (sp2 - 1) rest))
        (if sp2 == 0 then [] else drop sp2 rest) (without (codes "HTTP/") (take (sp1 - 1) line))
        fields size (finalize_headers fields join)

unfoldable pub parse_response_head : Str → Bool → Parse ResponseHead
unfolding index_of_text split_header_lines header_fields response_of
parse_response_head raw join = elim (index_of_text (crlf ++ crlf) raw) [
  | none ↦ null
  | some end ↦ elim (split_header_lines (take end raw)) [
    | [] ↦ null
    | line ∷ lines ↦ response_of line (header_fields lines) (end + 4) join
  ]
]
