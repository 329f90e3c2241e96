-- ===== src/Http/Outgoing.antt =====
-- The heads that jac/js_engine/engine/src/builtins/js/http.js writes: `_flushRequest` of ClientRequest,
-- and `_sendHeaders` and `_writeHead` of ServerResponse.
use jaseci.Prelude.{
  ℕ, Bool, true, false, not, ◌&&◌, List, [], ◌∷◌, ◌++◌, map, Option, none, some, ltb, if◌then◌else◌,
  Str, codes, str_eq,
}
use jaseci.Numerals.{to_string}
use jaseci.Http.{crlf, ended}
use jaseci.Http.Headers.{Field}

-- An entry of `_headers`, with the value as text, and of `_headerNames`; no name is the empty one.
pub record Header : Type 0 where
  pub key : Str
  pub name : Str
  pub value : Str

-- `this._headerNames[key] || key`
unfoldable pub name_of : Header → Str
name_of h = elim h.name [ [] ↦ h.key | c ∷ s ↦ c ∷ s ]

-- `headers[key]` as a condition: there is such a value, and it is not empty.
unfoldable pub has_value : Str → List Header → Bool
has_value key [] = false
has_value key (h ∷ headers) =
    let rest = has_value key headers in
    if str_eq h.key key then (elim h.value [ [] ↦ false | c ∷ s ↦ true ]) else rest

abbrev pub field_text : Field → Str
field_text (name, value) = name ++ (codes ": " ++ value)

unfoldable pub fields_of : List Header → List Field
unfolding name_of
fields_of headers = map (λ (h : Header). (name_of h, h.value)) headers

-- `uri` is the path or, with a proxy, the absolute URI; `body_bytes` counts the bytes of the body.
pub record Request : Type 0 where
  pub method : Str
  pub uri : Str
  pub headers : List Header
  pub body_bytes : ℕ
  pub keep_alive : Bool

-- `Content-Length`, where there is a body and no such header.
unfoldable pub length_field : Request → List Field
unfolding has_value to_string
length_field r =
    if ltb 0 r.body_bytes && not (has_value (codes "content-length") r.headers)
    then (codes "Content-Length", to_string 10 r.body_bytes) ∷ []
    else []

-- `Connection`, where there is no such header.
unfoldable pub connection_field : Request → List Field
unfolding has_value
connection_field r =
    if has_value (codes "connection") r.headers
    then []
    else if r.keep_alive
    then (codes "Connection", codes "keep-alive") ∷ []
    else (codes "Connection", codes "close") ∷ []

-- The fields that are sent: those that were set, and what `_flushRequest` adds.
unfoldable pub request_fields : Request → List Field
unfolding fields_of length_field connection_field
request_fields r = fields_of r.headers ++ (length_field r ++ connection_field r)

unfoldable pub request_line : Request → Str
request_line r = r.method ++ (codes " " ++ (r.uri ++ codes " HTTP/1.1"))

unfoldable pub request_head : Request → Str
unfolding request_line request_fields ended
request_head r = ended (request_line r ∷ map field_text (request_fields r)) ++ crlf

-- `reason` is the message that the table STATUS_CODES has for the code, or Unknown; `date` is what the
-- clock says.
pub record Response : Type 0 where
  pub status_code : ℕ
  pub status_message : Option Str
  pub headers : List Header
  pub send_date : Bool

unfoldable pub date_field : Str → Response → List Field
unfolding has_value
date_field date r =
    if r.send_date && not (has_value (codes "date") r.headers)
    then (codes "Date", date) ∷ []
    else []

unfoldable pub response_fields : Str → Response → List Field
unfolding fields_of date_field
response_fields date r = fields_of r.headers ++ date_field date r

unfoldable pub status_line : Str → Response → Str
unfolding to_string
status_line reason r =
    codes "HTTP/1.1 "
    ++ (to_string 10 r.status_code
        ++ (codes " " ++ (elim r.status_message [ none ↦ reason | some s ↦ s ])))

unfoldable pub response_head : Str → Str → Response → Str
unfolding status_line response_fields ended
response_head reason date r =
    ended (status_line reason r ∷ map field_text (response_fields date r)) ++ crlf
