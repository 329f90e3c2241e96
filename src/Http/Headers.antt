-- ===== src/Http/Headers.antt =====
-- `finalizeHeaders` of jac/js_engine/engine/src/builtins/js/http_core.js: the header fields of a message,
-- as they came, become an object. `rawHeaders` is given as pairs of a name and a value.
pub mod Combined
pub mod Throws
use jaseci.Prelude.{
  Bool, true, false, not, ◌||◌, List, [], ◌∷◌, ◌++◌, Option, none, some, if◌then◌else◌, Str, codes,
  str_eq, to_lower_case,
}
use jaseci.Http.Objects.{get, put}

abbrev pub Field : Type 0
Field = Str × Str

-- A value of the object `headers`: a string or an array.
pub data Entry : Type 0 where
  text : Str → Entry
  texts : List Str → Entry

-- The keys of DUPLICATE_DISCARD.
abbrev pub discarded_names : List Str
discarded_names =
    codes "age"
    ∷ codes "authorization"
    ∷ codes "content-length"
    ∷ codes "content-type"
    ∷ codes "etag"
    ∷ codes "expires"
    ∷ codes "from"
    ∷ codes "host"
    ∷ codes "if-modified-since"
    ∷ codes "if-unmodified-since"
    ∷ codes "last-modified"
    ∷ codes "location"
    ∷ codes "max-forwards"
    ∷ codes "proxy-authorization"
    ∷ codes "referer"
    ∷ codes "retry-after"
    ∷ codes "server"
    ∷ codes "user-agent"
    ∷ []

unfoldable pub is_among : List Str → Str → Bool
is_among [] key = false
is_among (name ∷ names) key = str_eq name key || is_among names key

-- `DUPLICATE_DISCARD[key]`
unfoldable pub is_discarded : Str → Bool
unfolding is_among
is_discarded key = is_among discarded_names key

-- The names of the properties that an object has from Object.prototype
abbrev pub prototype_names : List Str
prototype_names =
    codes "constructor"
    ∷ codes "__defineGetter__"
    ∷ codes "__defineSetter__"
    ∷ codes "hasOwnProperty"
    ∷ codes "__lookupGetter__"
    ∷ codes "__lookupSetter__"
    ∷ codes "isPrototypeOf"
    ∷ codes "propertyIsEnumerable"
    ∷ codes "toString"
    ∷ codes "valueOf"
    ∷ codes "__proto__"
    ∷ codes "toLocaleString"
    ∷ []

unfoldable pub is_inherited : Str → Bool
unfolding is_among
is_inherited key = is_among prototype_names key

-- What `headersDistinct[key]` is: undefined, an own array, or what the prototype has, a value without
-- the method `push`.
pub data Slot : Type 0 where
  undefined : Slot
  own : List Str → Slot
  inherited : Slot

unfoldable pub slot_of : Str → Option (List Str) → Slot
unfolding is_inherited
slot_of key none = if is_inherited key then inherited else undefined
slot_of key (some list) = own list

-- A value as a string; that of an array is not used.
abbrev pub shown : Entry → Str
shown (text s) = s
shown (texts list) = []

-- What `headers[key]` is after one more value.
unfoldable pub absorb : Bool → Str → Option Entry → Str → Entry
unfolding is_discarded
absorb join key none value = text value
absorb join key (some old) value =
    if str_eq (codes "set-cookie") key
    then elim old [ texts list ↦ texts (list ++ (value ∷ [])) | text s ↦ texts (s ∷ value ∷ []) ]
    else if str_eq (codes "cookie") key
    then text (shown old ++ (codes "; " ++ value))
    else if join || not (is_discarded key)
    then text (shown old ++ (codes ", " ++ value))
    else old

-- `none` where the call of `push` throws a TypeError
unfoldable pub push : Slot → Str → Option (List Str)
push undefined value = some (value ∷ [])
push (own list) value = some (list ++ (value ∷ []))
push inherited value = none

-- The objects `headers` and `headersDistinct`.
pub record Headers : Type 0 where
  pub headers : List (Str × Entry)
  pub distinct : List (Str × List Str)

-- A round of the loop; `none` where it throws. An inherited name throws before `headers` is read.
unfoldable pub add_header : Bool → Headers → Field → Option Headers
unfolding slot_of absorb push get put
add_header join h (name, value) =
    let key = to_lower_case name in
    elim (push (slot_of key (get h.distinct key)) value) [
      | none ↦ none
      | some list ↦ some (record {
        headers = put h.headers key (absorb join key (get h.headers key) value);
        distinct = put h.distinct key list;
      })
    ]

unfoldable pub add_headers : Bool → Headers → List Field → Option Headers
unfolding add_header
add_headers join h [] = some h
add_headers join h (field ∷ fields) = elim (add_header join h field) [
  | none ↦ none
  | some h' ↦ add_headers join h' fields
]

-- `headers["set-cookie"]` is replaced by what `headersDistinct` has there.
unfoldable pub replace_cookies : Headers → Headers
unfolding get put
replace_cookies h = elim (get h.distinct (codes "set-cookie")) [
  | none ↦ h
  | some [] ↦ h
  | some (s ∷ []) ↦ record h { headers = put h.headers (codes "set-cookie") (text s) }
  | some (s ∷ t ∷ list) ↦ record h {
    headers = put h.headers (codes "set-cookie") (texts (s ∷ t ∷ list));
  }
]

unfoldable pub finalize_headers : List Field → Bool → Option Headers
unfolding add_headers replace_cookies
finalize_headers fields join =
    elim (add_headers join (record { headers = []; distinct = [] }) fields) [
      | none ↦ none
      | some h ↦ some (replace_cookies h)
    ]
