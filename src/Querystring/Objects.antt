-- ===== src/Querystring/Objects.antt =====
-- `parse` and `stringify` of querystring.js, with separators of one code unit. An object is the list
-- of its own properties in the order in which they were added.
pub mod Pairs
pub mod Written
pub mod Groups
pub mod RoundTrip
use jaseci.Prelude.{
  ℕ, zero, suc, ◌+◌, ◌-◌, Bool, true, false, ◌&&◌, ◌||◌, List, [], ◌∷◌, ◌++◌, Option, none, some,
  ltb, leb, ◌==◌, if◌then◌else◌, Str, codes, str_eq, length, take, drop, split, join, index_of,
}
use jaseci.Querystring.{unescape, escape}

-- A value of a parsed object: a string, an array of strings, or an array that starts with what
-- the key had from Object.prototype.
pub data Parsed : Type 0 where
  text : Str → Parsed
  texts : List Str → Parsed
  after_inherited : List Str → Parsed

abbrev pub Object : Type 0
Object = List (Str × Parsed)

abbrev pub inherited_names : List Str
inherited_names =
    codes "constructor"
    ∷ codes "hasOwnProperty"
    ∷ codes "isPrototypeOf"
    ∷ codes "propertyIsEnumerable"
    ∷ codes "toLocaleString"
    ∷ codes "toString"
    ∷ codes "valueOf"
    ∷ codes "__defineGetter__"
    ∷ codes "__defineSetter__"
    ∷ codes "__lookupGetter__"
    ∷ codes "__lookupSetter__"
    ∷ []

unfoldable pub is_in : Str → List Str → Bool
is_in s [] = false
is_in s (t ∷ ts) = str_eq s t || is_in s ts

unfoldable pub grow : Parsed → Str → Parsed
grow (text s) v = texts (s ∷ v ∷ [])
grow (texts vs) v = texts (vs ++ (v ∷ []))
grow (after_inherited vs) v = after_inherited (vs ++ (v ∷ []))

-- What `obj[key]` is set to, for a key that is no property of its own yet.
unfoldable pub fresh : Str → Str → Parsed
unfolding is_in
fresh key v = if is_in key inherited_names then after_inherited (v ∷ []) else text v

-- The assignment to `obj[key]`, for any key but `__proto__`.
unfoldable pub add : Object → Str → Str → Object
unfolding grow fresh
add [] key v = (key, fresh key v) ∷ []
add ((k, old) ∷ obj) key v =
    let rest = add obj key v in if str_eq k key then (k, grow old v) ∷ obj else (k, old) ∷ rest

-- The key and the value of a pair.
unfoldable pub key_value : ℕ → Str → Str × Str
unfolding index_of unescape
key_value eq pair =
    let i = index_of pair eq in
    if i == 0 then (unescape pair, []) else (unescape (take (i - 1) pair), unescape (drop i pair))

-- The loop of `parse`. `none` is a key `__proto__`, whose assignment sets the prototype: what it does
-- is outside of the model.
unfoldable pub parse_pairs : ℕ → ℕ → ℕ → Object → List Str → Option Object
unfolding key_value add
parse_pairs eq max_keys count obj [] = some obj
parse_pairs eq max_keys count obj ([] ∷ pairs) =
    let skipped = parse_pairs eq max_keys count obj pairs in
    if ltb 0 max_keys && leb max_keys count then some obj else skipped
parse_pairs eq max_keys count obj ((c ∷ pair) ∷ pairs) =
    let (key, val) = key_value eq (c ∷ pair) in
    let more = parse_pairs eq max_keys (count + 1) (add obj key val) pairs in
    if ltb 0 max_keys && leb max_keys count
    then some obj
    else if str_eq key (codes "__proto__")
    then none
    else more

-- `max_keys` is 0 for no limit; the source's default is 1000.
unfoldable pub parse : Str → ℕ → ℕ → ℕ → Option Object
unfolding split parse_pairs
parse str sep eq max_keys =
    if length str == 0 then some [] else parse_pairs eq max_keys 0 [] (split sep str)

-- A value given to `stringify`: null or undefined, one that is no array, or an array. A string here
-- stands for String(value).
pub data Field : Type 0 where
  absent : Field
  single : Str → Field
  array : List Str → Field

unfoldable pub pair_text : ℕ → Str → Str → Str
unfolding escape
pair_text eq key v = escape key ++ (eq ∷ escape v)

unfoldable pub array_parts : ℕ → Str → List Str → List Str
unfolding pair_text
array_parts eq key [] = []
array_parts eq key (v ∷ vs) = pair_text eq key v ∷ array_parts eq key vs

unfoldable pub field_parts : ℕ → Str → Field → List Str
unfolding array_parts pair_text
field_parts eq key absent = pair_text eq key [] ∷ []
field_parts eq key (single v) = pair_text eq key v ∷ []
field_parts eq key (array vs) = array_parts eq key vs

-- The loop of `stringify` over Object.keys(obj).
unfoldable pub object_parts : ℕ → List (Str × Field) → List Str
unfolding field_parts
object_parts eq [] = []
object_parts eq ((key, value) ∷ fields) = field_parts eq key value ++ object_parts eq fields

unfoldable pub stringify : List (Str × Field) → ℕ → ℕ → Str
unfolding object_parts join
stringify fields sep eq = join sep (object_parts eq fields)
