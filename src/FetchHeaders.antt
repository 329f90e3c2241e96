-- ===== src/FetchHeaders.antt =====
-- The class Headers of jac/js_engine/engine/src/builtins/js/fetch.js, with strings for names and values.
-- The loops of `set`, `delete`, `get` and `has` are those of URLSearchParams in url.js, so that the model
-- uses these. `none` is the TypeError on immutable headers.
pub mod Laws
use jaseci.Prelude.{
  Bool, true, false, List, [], ◌∷◌, ◌++◌, map, Option, none, some, if◌then◌else◌, Str, codes,
  to_lower_case,
}
use jaseci.Http.{crlf}
use jaseci.Numerals.{trim}
use jaseci.SearchParams
use jaseci.SearchParams.{Pair, delete_from, get_all, set_loop}

abbrev pub normalize_header_name : Str → Str
normalize_header_name = to_lower_case

abbrev pub normalize_header_value : Str → Str
normalize_header_value = trim

-- The values of `_guard`
pub data Guard : Type 0 where
  unguarded immutable request response : Guard

-- `_entries` and `_guard`
pub record Headers : Type 0 where
  pub entries : List Pair
  pub guard : Guard

abbrev pub empty : Headers
empty = record { entries = []; guard = unguarded }

-- `this._guard === "immutable"`
unfoldable pub is_immutable : Guard → Bool
is_immutable immutable = true
is_immutable _ = false

unfoldable pub append : Str → Str → Headers → Option Headers
unfolding is_immutable
append name value h =
    if is_immutable h.guard
    then none
    else some (record h {
      entries = h.entries ++ (normalize_header_name name, normalize_header_value value) ∷ [];
    })

unfoldable pub set : Str → Str → Headers → Option Headers
unfolding is_immutable set_loop
set name value h =
    if is_immutable h.guard
    then none
    else some (record h {
      entries =
          set_loop (normalize_header_name name) (normalize_header_value value) false h.entries;
    })

unfoldable pub delete : Str → Headers → Option Headers
unfolding is_immutable delete_from
delete name h =
    if is_immutable h.guard
    then none
    else some (record h { entries = delete_from (normalize_header_name name) none h.entries })

-- `values.join(", ")`
unfoldable pub join_values : List Str → Str
join_values [] = []
join_values (v ∷ []) = v
join_values (v ∷ w ∷ values) = v ++ b',' ∷ 32 ∷ join_values (w ∷ values)

-- null for no values
unfoldable pub combined : List Str → Option Str
unfolding join_values
combined [] = none
combined (v ∷ values) = some (join_values (v ∷ values))

unfoldable pub get : Str → Headers → Option Str
unfolding get_all combined
get name h = combined (get_all (normalize_header_name name) h.entries)

unfoldable pub has : Str → Headers → Bool
unfolding SearchParams.has
has name h = SearchParams.has (normalize_header_name name) none h.entries

unfoldable pub get_set_cookie : Headers → List Str
unfolding get_all
get_set_cookie h = get_all (codes "set-cookie") h.entries

unfoldable pub keys : Headers → List Str
keys h = map (λ (e : Pair). e.0) h.entries

unfoldable pub values : Headers → List Str
values h = map (λ (e : Pair). e.1) h.entries

-- `_toRaw`
unfoldable pub raw_entries : List Pair → Str
raw_entries [] = []
raw_entries ((name, value) ∷ entries) = name ++ b':' ∷ 32 ∷ value ++ crlf ++ raw_entries entries

unfoldable pub to_raw : Headers → Str
unfolding raw_entries
to_raw h = raw_entries h.entries

-- The constructor on an array of pairs, or on the keys of an object with their values
unfoldable pub append_all : List Pair → Headers → Option Headers
unfolding append
append_all [] h = some h
append_all ((name, value) ∷ pairs) h = elim (append name value h) [
  | none ↦ none
  | some next ↦ append_all pairs next
]

unfoldable pub from_pairs : List Pair → Option Headers
unfolding append_all
from_pairs pairs = append_all pairs empty

-- The constructor on other headers
unfoldable pub from_headers : Headers → Headers
from_headers init = record { entries = init.entries; guard = unguarded }
