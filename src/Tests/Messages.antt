-- ===== src/Tests/Messages.antt =====
-- The messages of http_core.js and http.js at concrete inputs.
use jaseci.Prelude.{
  map, ℕ, ◌+◌, ◌≤◌, Bool, true, false, List, [], ◌∷◌, ◌++◌, Option, none, some, Str, codes, length,
  ◌≡◌, ◌≢◌, ◌↔◌, refl, arith, All, Free, inl, inr,
}
use jaseci.Http.{crlf}
use jaseci.Http.Objects.{get}
use jaseci.Http.Headers.{Field, Entry, Headers, finalize_headers}
use jaseci.Http.Headers.Combined.{finalize_headers-combine}
use jaseci.Http.Headers.Throws.{AnyThrowing, finalize_headers-none_iff}
use jaseci.Http.Chunked.{
  decoded, out_of_fuel, decode_loop, decode_chunked_section, write_chunks, last_chunk,
}
use jaseci.Http.Chunked.RoundTrip.{decode_chunked_section-write_chunks}
use jaseci.Http.Chunked.Endless.{decode_loop-endless}
use jaseci.Http.Chunked.Ends.{decode_chunked_section-ends}
use jaseci.Http.Bodies.{
  consumed, consume_incoming_body, is_chunked, length_of, natural, negative, nan, unread,
}
use jaseci.Http.Bodies.Exact.{consume_incoming_body-length}
use jaseci.Http.Outgoing.{Header, Request, Response}
use jaseci.Http.Routes.{Url, Location, redirect, should_bypass_proxy}
use jaseci.Http.Routes.Redirect.{redirect-IsAbsolute, IsAbsolute}
use jaseci.Numerals.{to_string}

abbrev accept : Header
accept = record { key = codes "accept"; name = codes "Accept"; value = codes "*/*" }

abbrev post : Request
post = record {
  method = codes "POST";
  uri = codes "/a";
  headers = accept ∷ [];
  body_bytes = 2;
  keep_alive = true;
}

abbrev answer : Response
answer = record {
  status_code = 200;
  status_message = none;
  headers = accept ∷ [];
  send_date = true;
}

-- Three fields of two names.
abbrev three : List Field
three =
    (codes "Cookie", codes "a=1") ∷ (codes "Age", codes "1") ∷ (codes "cookie", codes "b=2") ∷ []

abbrev three_headers : Headers
three_headers = record {
  headers =
      (codes "cookie", Entry.text (codes "a=1; b=2")) ∷ (codes "age", Entry.text (codes "1")) ∷ [];
  distinct = (codes "cookie", codes "a=1" ∷ codes "b=2" ∷ []) ∷ (codes "age", codes "1" ∷ []) ∷ [];
}

three_final : finalize_headers three false ≡ some three_headers
unfolding finalize_headers jaseci.Prelude.str_eq jaseci.Prelude.to_lower_case
three_final = refl

-- The trailer of a chunked body is left to the next message: two bytes of it are consumed.
trailer_left :
    decode_chunked_section (codes "0" ++ (crlf ++ (codes "X: y" ++ (crlf ++ crlf)))) ≡ decoded [] 5
unfolding decode_chunked_section jaseci.Numerals.parse_int
trailer_left = refl

bypassed : should_bypass_proxy (codes "api.example.com") (codes "localhost, .example.com") ≡ true
unfolding should_bypass_proxy
bypassed = refl

decode_chunked_section-write_chunks_example :
    decode_chunked_section
      (write_chunks (codes "ab" ∷ [] ∷ codes "c" ∷ []) ++ (last_chunk ++ codes "GET"))
    ≡ decoded (codes "abc") (length (write_chunks (codes "ab" ∷ [] ∷ codes "c" ∷ []) ++ last_chunk))
decode_chunked_section-write_chunks_example =
    decode_chunked_section-write_chunks (codes "ab" ∷ [] ∷ codes "c" ∷ []) (codes "GET")

decode_loop-endless_example :
    decode_loop 1000 (codes "-6" ++ (crlf ++ codes "x")) 0 [] ≡ out_of_fuel
decode_loop-endless_example = decode_loop-endless 1000 (codes "x") []

decode_chunked_section-ends_example :
    decode_chunked_section (codes "3" ++ (crlf ++ codes "ab")) ≢ out_of_fuel
decode_chunked_section-ends_example =
    decode_chunked_section-ends (codes "3" ++ (crlf ++ codes "ab")) (omega arith)

finalize_headers-combine_example :
    (get three_headers.headers (codes "cookie") ≡ some (Entry.text (codes "a=1; b=2")))
    × (get three_headers.distinct (codes "cookie") ≡ some (codes "a=1" ∷ codes "b=2" ∷ []))
unfolding jaseci.Prelude.str_eq jaseci.Prelude.to_lower_case
finalize_headers-combine_example =
    finalize_headers-combine three false {r = three_headers} three_final (codes "cookie")

finalize_headers-none_iff_example :
    (finalize_headers ((codes "Constructor", codes "1") ∷ []) false ≡ none)
    ↔ AnyThrowing ((codes "Constructor", codes "1") ∷ [])
finalize_headers-none_iff_example =
    finalize_headers-none_iff ((codes "Constructor", codes "1") ∷ []) false

-- A body of three bytes behind a head of two.
abbrev sized : List (Str × Entry)
sized = (codes "content-length", Entry.text (codes "3")) ∷ []

taken : consume_incoming_body (codes "h:abcGET") 2 sized ≡ consumed (codes "abc") 5
unfolding consume_incoming_body jaseci.Prelude.str_eq
taken = refl

consume_incoming_body-length_example :
    consume_incoming_body (codes "h:" ++ (codes "abc" ++ codes "GET")) (length (codes "h:")) sized
    ≡ consumed (codes "abc") (length (codes "h:" ++ codes "abc"))
consume_incoming_body-length_example =
    consume_incoming_body-length (codes "h:") (codes "abc") (codes "GET") sized
      (unfold is_chunked get jaseci.Prelude.str_eq in refl)
      (unfold get jaseci.Prelude.str_eq to_string in refl)

odd_lengths :
    map length_of (
      codes "-5"
      ∷ codes " +7 "
      ∷ codes "x"
      ∷ codes "1e3"
      ∷ codes "2.5"
      ∷ codes "-"
      ∷ codes "0x1.5"
      ∷ [])
    ≡ negative 5 ∷ natural 7 ∷ nan ∷ unread ∷ unread ∷ nan ∷ nan ∷ []
unfolding length_of
odd_lengths = refl

abbrev base : Location
base = record { protocol = codes "http:"; host = codes "h"; port = 80; path = codes "/a/b" }

abbrev no_url : Str → Option Url
no_url s = none

redirect-IsAbsolute_example :
    (l : Location) × (redirect no_url (codes "c") base ≡ some l)
    × IsAbsolute l.path
    × (l.host ≡ codes "h")
    × (l.port ≡ 80)
    × (l.protocol ≡ codes "http:")
redirect-IsAbsolute_example = redirect-IsAbsolute no_url b'c' [] base (inr refl) refl

abbrev other_site : Url
other_site = record {
  protocol = codes "https:";
  hostname = codes "o";
  port = [];
  pathname = codes "/p";
  search = codes "?q";
}

redirect_away :
    redirect (λ s. some other_site) (codes "https://o/p?q") base
    ≡ some (record { protocol = codes "https:"; host = codes "o"; port = 443; path = codes "/p?q" })
unfolding redirect
redirect_away = refl
