-- ===== src/Querystring/Objects/RoundTrip.antt =====
-- `parse` of querystring.js gives back the object that `stringify` wrote.
use jaseci.Prelude.{
  ℕ, ◌≤◌, false, List, [], ◌∷◌, ◌++◌, some, Str, length, ◌≡◌, ◌⊎◌, refl, ap, sym, ◌∙◌, arith, All,
  All-append, append_assoc, append-nil, str_eq, codes,
}
use jaseci.Querystring.Objects.{
  Parsed, text, texts, Object, grow, add, parse, Field, absent, single, array, pair_text,
  array_parts, field_parts, object_parts, stringify,
}
use jaseci.Querystring.Objects.Written.{
  IsText, IsPair, written, written_all, limit_next, parse-join,
}
use jaseci.Querystring.Objects.Groups.{
  IsFree, Lacks, add-fresh, add-again, add_all, add_all-append, with_key, add_all-grow,
}

-- The pairs of the fields of an object.
abbrev field_pairs : Str → Field → List (Str × Str)
field_pairs key absent = (key, []) ∷ []
field_pairs key (single v) = (key, v) ∷ []
field_pairs key (array vs) = with_key key vs

abbrev object_pairs : List (Str × Field) → List (Str × Str)
object_pairs [] = []
object_pairs ((key, value) ∷ fields) = field_pairs key value ++ object_pairs fields

written_all-append :
    (p q : List (Str × Str)) → written_all (p ++ q) ≡ written_all p ++ written_all q
written_all-append [] q = refl
written_all-append (x ∷ p) q = ap (written x ∷◌) (written_all-append p q)

array_parts-written :
    (key : Str) (vs : List Str) → array_parts b'=' key vs ≡ written_all (with_key key vs)
unfolding array_parts
array_parts-written key [] = refl
array_parts-written key (v ∷ vs) = ap (pair_text b'=' key v ∷◌) (array_parts-written key vs)

field_parts-written :
    (key : Str) (value : Field) → field_parts b'=' key value ≡ written_all (field_pairs key value)
unfolding field_parts
field_parts-written key absent = refl
field_parts-written key (single v) = refl
field_parts-written key (array vs) = array_parts-written key vs

object_parts-written :
    (fields : List (Str × Field)) → object_parts b'=' fields ≡ written_all (object_pairs fields)
unfolding object_parts
object_parts-written [] = refl
object_parts-written ((key, value) ∷ fields) =
    rw (field_parts-written key value, object_parts-written fields)
      (sym (written_all-append (field_pairs key value) (object_pairs fields)))

-- What is parsed from a value: a missing one is the empty string.
abbrev pub parsed_of : Field → Parsed
parsed_of absent = text []
parsed_of (single v) = text v
parsed_of (array vs) = texts vs

abbrev pub parsed_all : List (Str × Field) → Object
parsed_all [] = []
parsed_all ((key, value) ∷ fields) = (key, parsed_of value) ∷ parsed_all fields

-- A value that is parsed as it is: strings without lone surrogates, an array of two at least.
abbrev pub IsValue : Field → Type 0
IsValue absent = Unit
IsValue (single v) = IsText v
IsValue (array vs) = (2 ≤ length vs) × All IsText vs

-- A key without lone surrogates that is no name of Object.prototype.
abbrev pub IsKey : Str → Type 0
IsKey key = IsText key × (str_eq key (codes "__proto__") ≡ false) × IsFree key

abbrev pub IsFields : List (Str × Field) → Type 0
IsFields = All (λ (f : Str × Field). IsKey f.0 × IsValue f.1)

-- No key occurs twice.
abbrev pub Distinct : List (Str × Field) → Type 0
Distinct [] = Unit
Distinct ((key, _) ∷ fields) =
    All (λ (f : Str × Field). str_eq key f.0 ≡ false) fields × Distinct fields

with_key-IsPair :
    (key : Str) (vs : List Str) → IsKey key → All IsText vs → All IsPair (with_key key vs)
with_key-IsPair key [] h k = tt
with_key-IsPair key (v ∷ vs) (t, n, f) k = ((t, k.0, n), with_key-IsPair key vs (t, n, f) k.1)

field_pairs-IsPair :
    (key : Str) (value : Field) → IsKey key → IsValue value → All IsPair (field_pairs key value)
field_pairs-IsPair key absent (t, n, f) k = ((t, ([], tt, refl), n), tt)
field_pairs-IsPair key (single v) (t, n, f) k = ((t, k, n), tt)
field_pairs-IsPair key (array vs) h k = with_key-IsPair key vs h k.1

object_pairs-IsPair :
    (fields : List (Str × Field)) → IsFields fields → All IsPair (object_pairs fields)
object_pairs-IsPair [] h = tt
object_pairs-IsPair ((key, value) ∷ fields) ((k, v), h) =
    All-append IsPair (field_pairs key value) (object_pairs fields)
      (field_pairs-IsPair key value k v) (object_pairs-IsPair fields h)

-- A field adds its property.
add_all-field :
    (obj : Object) (key : Str) (value : Field)
    → IsFree key
    → IsValue value
    → Lacks obj key
    → add_all obj (field_pairs key value) ≡ obj ++ (key, parsed_of value) ∷ []
unfolding grow
add_all-field obj key absent f h k = add-fresh obj key [] f k
add_all-field obj key (single v) f h k = add-fresh obj key v f k
add_all-field obj key (array []) f h k = absurd (omega (arith, h.0))
add_all-field obj key (array (v ∷ [])) f h k = absurd (omega (arith, h.0))
add_all-field obj key (array (v ∷ w ∷ vs)) f h k =
    ap (λ (o : Object). add_all (add o key w) (with_key key vs)) (add-fresh obj key v f k)
    ∙ ap (λ (o : Object). add_all o (with_key key vs)) (add-again obj key w (text v) k)
    ∙ add_all-grow obj key (v ∷ w ∷ []) vs k

-- The keys that come later are no properties yet.
LackAll : Object → List (Str × Field) → Type 0
LackAll obj fields = All (λ (f : Str × Field). Lacks obj f.0) fields

lack-next :
    (obj : Object) (key : Str) (value : Parsed) (fields : List (Str × Field))
    → LackAll obj fields
    → All (λ (f : Str × Field). str_eq key f.0 ≡ false) fields
    → LackAll (obj ++ (key, value) ∷ []) fields
unfolding LackAll
lack-next obj key value [] h k = tt
lack-next obj key value (f ∷ fields) h k =
    (All-append _ obj ((key, value) ∷ []) h.0 (k.0, tt), lack-next obj key value fields h.1 k.1)

add_all-fields :
    (obj : Object) (fields : List (Str × Field))
    → IsFields fields
    → Distinct fields
    → LackAll obj fields
    → add_all obj (object_pairs fields) ≡ obj ++ parsed_all fields
unfolding LackAll
add_all-fields obj [] h d k = sym (append-nil obj)
add_all-fields obj ((key, value) ∷ fields) (((t, n, f), v), h) d k =
    add_all-append obj (field_pairs key value) (object_pairs fields)
    ∙ ap (λ (o : Object). add_all o (object_pairs fields)) (add_all-field obj key value f v k.0)
    ∙ add_all-fields (obj ++ (key, parsed_of value) ∷ []) fields h d.1
        (lack-next obj key (parsed_of value) fields k.1 d.0)
    ∙ append_assoc obj ((key, parsed_of value) ∷ []) (parsed_all fields)

lack-empty : (fields : List (Str × Field)) → LackAll [] fields
unfolding LackAll
lack-empty [] = tt
lack-empty (f ∷ fields) = (tt, lack-empty fields)

length-written_all : (pairs : List (Str × Str)) → length (written_all pairs) ≡ length pairs
length-written_all [] = refl
length-written_all (p ∷ pairs) = omega (arith, length-written_all pairs)

-- An object is parsed from what `stringify` wrote for it, with `&` and `=` as separators, property by
-- property in the same order: no key occurs twice, keys and values have no lone surrogates, no key
-- is a name of Object.prototype, an array has two elements at least, and the number of pairs is
-- within the limit of keys (0 is no limit). A missing value is parsed as the empty string.
pub parse-stringify :
    (fields : List (Str × Field)) (max_keys : ℕ)
    → IsFields fields
    → Distinct fields
    → (max_keys ≡ 0) ⊎ (length (object_parts b'=' fields) ≤ max_keys)
    → parse (stringify fields b'&' b'=') b'&' b'=' max_keys ≡ some (parsed_all fields)
unfolding stringify
parse-stringify fields max_keys h d l =
    let pairs = object_pairs fields in
    let size = ap length (object_parts-written fields) ∙ length-written_all pairs in
    rw (object_parts-written fields) (
      parse-join max_keys pairs (object_pairs-IsPair fields h) (limit_next max_keys _ _ l size)
      ∙ ap some (add_all-fields [] fields h d (lack-empty fields)))
