-- ===== src/Http/Heads/Written.antt =====
-- The fields of a head that http.js writes, as http_core.js reads them.
use jaseci.Prelude.{
  ℕ, suc, ◌-◌, ◌<◌, true, not, ◌&&◌, List, [], ◌∷◌, ◌++◌, map, ltb, if_both, Str, codes, Free, All,
  All-append, length, take, drop, ◌≡◌, ◌≢◌, refl, ap, ap₂, subst, sym, ◌∙◌, arith, append_assoc,
  take-append, drop-append, length-append, ne→==, lt→ltb, index_of, index_of-append,
}
use jaseci.Numerals.{digit, to_string}
use jaseci.Numerals.Laws.{Digits, to_string-IsWritten}
use jaseci.Http.{cr}
use jaseci.Http.Headers.{Field}
use jaseci.Http.Heads.{skip_spaces, header_fields}
use jaseci.Http.Heads.Sections.{IsLine}
use jaseci.Http.Outgoing.{
  Header, name_of, has_value, field_text, fields_of, Request, request_fields, length_field,
  connection_field, Response, response_fields, date_field,
}
use jaseci.Http.Validators.{valid, validate_header_name, validate_header_value}
use jaseci.Http.Validators.Accepted.{
  IsNameUnit, IsValueUnit, validate_header_name-valid, validate_header_value-valid_iff,
}

-- A text that does not start with a space.
abbrev pub Unspaced : Str → Type 0
Unspaced [] = Unit
Unspaced (c ∷ s) = c ≢ b' '

-- A field that is read as it was written.
pub record IsField (f : Field) : Type 0 where
  pub named : 0 < length f.0
  pub name_Free : Free b':' f.0
  pub name_line : Free cr f.0
  pub value_line : Free cr f.1
  pub value_start : Unspaced f.1

skip_spaces-Unspaced : (s : Str) → Unspaced s → skip_spaces s ≡ s
unfolding skip_spaces
skip_spaces-Unspaced [] h = refl
skip_spaces-Unspaced (c ∷ s) h = rw (ne→== c b' ' h, skip_spaces) refl

-- A field is read from its line.
header_fields-cons :
    (f : Field) (lines : List Str)
    → IsField f
    → header_fields (field_text f ∷ lines) ≡ f ∷ header_fields lines
unfolding header_fields skip_spaces
header_fields-cons (name, value) lines h =
    let line = name ++ b':' ∷ b' ' ∷ value in
    let found : index_of line b':' ≡ suc (length name) =
      index_of-append b':' name (b' ' ∷ value) h.name_Free in
    let proper : ltb 1 (suc (length name)) ≡ true = lt→ltb _ _ (omega (arith, h.named)) in
    let size : length (name ++ b':' ∷ []) ≡ suc (length name) =
      omega (arith, length-append name (b':' ∷ [])) in
    let size' : suc (length name) - 1 ≡ length name = omega arith in
    let value_at : drop (suc (length name)) line ≡ b' ' ∷ value =
      ap (drop (suc (length name))) (sym (append_assoc name (b':' ∷ []) (b' ' ∷ value)))
      ∙ ap (λ (n : ℕ). drop n ((name ++ b':' ∷ []) ++ b' ' ∷ value)) (sym size)
      ∙ drop-append (name ++ b':' ∷ []) (b' ' ∷ value) in
    rw (found, header_fields, proper)
      (ap₂ (λ (n v : Str). (n, v) ∷ header_fields lines)
        (ap (λ (n : ℕ). take n line) size' ∙ take-append name (b':' ∷ b' ' ∷ value))
        (ap skip_spaces value_at ∙ skip_spaces-Unspaced value h.value_start))

pub header_fields-map :
    (fields : List Field) → All IsField fields → header_fields (map field_text fields) ≡ fields
unfolding header_fields
header_fields-map [] h = refl
header_fields-map (f ∷ fields) h =
    header_fields-cons f (map field_text fields) h.0 ∙ ap (f ∷◌) (header_fields-map fields h.1)

pub fields-IsLine : (fields : List Field) → All IsField fields → All IsLine (map field_text fields)
fields-IsLine [] h = tt
fields-IsLine ((name, value) ∷ fields) (f, h) = (
  (
    omega (arith, f.named, length-append name (codes ": " ++ value)),
    All-append (λ c. c ≢ cr) name (codes ": " ++ value) f.name_line
        (omega arith, (omega arith, f.value_line)),
  ),
  fields-IsLine fields h,
)

-- A header that the validators accept, with a value that does not start with a space.
pub record IsAccepted (h : Header) : Type 0 where
  pub name : validate_header_name (name_of h) ≡ valid
  pub value : validate_header_value h.value ≡ valid
  pub start : Unspaced h.value

All-map : {P Q : ℕ → Type 0} → ((c : ℕ) → P c → Q c) → (s : Str) → All P s → All Q s
All-map f [] h = tt
All-map f (c ∷ s) h = (f c h.0, All-map f s h.1)

IsAccepted-IsField : (h : Header) → IsAccepted h → IsField (name_of h, h.value)
IsAccepted-IsField h a =
    let (size, units) = validate_header_name-valid (name_of h) a.name in
    let values = (validate_header_value-valid_iff h.value).0 a.value in
    record {
      named = size;
      name_Free = All-map {P = IsNameUnit} (λ c u. u.0) (name_of h) units;
      name_line = All-map {P = IsNameUnit} (λ c u. u.1) (name_of h) units;
      value_line = All-map {P = IsValueUnit} (λ c u. u.0) h.value values;
      value_start = a.start;
    }

fields_of-IsField :
    (headers : List Header) → All IsAccepted headers → All IsField (fields_of headers)
unfolding fields_of
fields_of-IsField [] h = tt
fields_of-IsField (x ∷ headers) h = (IsAccepted-IsField x h.0, fields_of-IsField headers h.1)

map-Free : (ds : List ℕ) → Digits 10 ds → Free cr (map digit ds)
unfolding digit
map-Free [] h = tt
map-Free (d ∷ ds) h = (ground arith, map-Free ds h.1)

map-Unspaced : (ds : List ℕ) → Digits 10 ds → Unspaced (map digit ds)
unfolding digit
map-Unspaced [] h = tt
map-Unspaced (d ∷ ds) h = ground arith

number-IsField :
    (name : Str) (n : ℕ)
    → 0 < length name
    → Free b':' name
    → Free cr name
    → IsField (name, to_string 10 n)
number-IsField name n h k l =
    let w = to_string-IsWritten 10 n (omega arith) in
    record {
      named = h;
      name_Free = k;
      name_line = l;
      value_line = subst (Free cr) (sym w.units) (map-Free (w.first ∷ w.others) w.digits);
      value_start = subst Unspaced (sym w.units) (map-Unspaced (w.first ∷ w.others) w.digits);
    }

abbrev AllFields : List Field → Type 0
AllFields = All IsField

length_field-IsField : (r : Request) → All IsField (length_field r)
unfolding length_field
length_field-IsField r =
    if_both AllFields (ltb 0 r.body_bytes && not (has_value (codes "content-length") r.headers))
      ((codes "Content-Length", to_string 10 r.body_bytes) ∷ []) []
      (
        number-IsField (codes "Content-Length") r.body_bytes (omega arith) (omega arith)
            (omega arith),
        tt,
      )
      tt

plain-IsField :
    (name value : Str)
    → 0 < length name
    → Free b':' name
    → Free cr name
    → Free cr value
    → Unspaced value
    → AllFields ((name, value) ∷ [])
plain-IsField name value h k l m n =
    (record { named = h; name_Free = k; name_line = l; value_line = m; value_start = n }, tt)

connection_field-IsField : (r : Request) → All IsField (connection_field r)
unfolding connection_field
connection_field-IsField r =
    let keep =
      plain-IsField (codes "Connection") (codes "keep-alive") (omega arith) (omega arith)
        (omega arith) (omega arith) (omega arith) in
    let close =
      plain-IsField (codes "Connection") (codes "close") (omega arith) (omega arith) (omega arith)
        (omega arith) (omega arith) in
    if_both AllFields (has_value (codes "connection") r.headers) [] _ tt
      (if_both AllFields r.keep_alive _ _ keep close)

-- What `_flushRequest` sends are fields that are read as they were written.
pub request_fields-IsField :
    (r : Request) → All IsAccepted r.headers → All IsField (request_fields r)
unfolding request_fields
request_fields-IsField r h =
    All-append IsField (fields_of r.headers) (length_field r ++ connection_field r)
      (fields_of-IsField r.headers h)
      (All-append IsField (length_field r) (connection_field r) (length_field-IsField r)
        (connection_field-IsField r))

-- The date is given by the clock.
pub response_fields-IsField :
    (date : Str) (r : Response)
    → All IsAccepted r.headers
    → Free cr date
    → Unspaced date
    → All IsField (response_fields date r)
unfolding response_fields date_field
response_fields-IsField date r h k l =
    All-append IsField (fields_of r.headers) (date_field date r) (fields_of-IsField r.headers h) (
      if_both AllFields (r.send_date && not (has_value (codes "date") r.headers))
        ((codes "Date", date) ∷ []) []
        (plain-IsField (codes "Date") date (omega arith) (omega arith) (omega arith) k l) tt)
