-- ===== src/SearchParams.antt =====
-- URLSearchParams of jac/js_engine/engine/src/builtins/js/url.js. `list` is `_list`, and `search` is
-- `_search` of the URL that the parameters belong to, if there is one. Names and values are strings.
pub mod Encoding
pub mod Written
pub mod Lists
pub mod Updates
pub mod Sorted
pub mod Linked
use jaseci.Prelude.{
  ℕ, zero, suc, ◌-◌, Bool, true, false, not, ◌&&◌, ◌||◌, List, [], ◌∷◌, ◌++◌, Option, none, some,
  leb, within, ◌==◌, if◌then◌else◌, Str, str_eq, length, take, drop, split, join, index_of,
}
use jaseci.Unicode.{bytes}
use jaseci.Querystring.{hex_table, unreserved, unescape}

abbrev pub Pair : Type 0
Pair = Str × Str

pub record Params : Type 0 where
  pub list : List Pair
  pub search : Option Str

-- Bytes as percent-encoded text.
unfoldable pub encode_bytes : List ℕ → Str
unfolding hex_table
encode_bytes [] = []
encode_bytes (b ∷ bs) = hex_table b ++ encode_bytes bs

-- `encodeURIComponent` of one code unit; `none` is the URIError of a surrogate
unfoldable pub encode_uri_unit : ℕ → Option Str
unfolding unreserved encode_bytes
encode_uri_unit c =
    if within 0xd800 0xdfff c
    then none
    else some (if unreserved c then c ∷ [] else encode_bytes (bytes c))

-- The units that `_sp_encode` keeps.
unfoldable pub is_kept : ℕ → Bool
is_kept c =
    within 48 57 c || within 65 90 c || within 97 122 c || c == 42 || c == 45 || c == 46 || c == 95

-- A round of the loop of `_sp_encode`
unfoldable pub encode_unit : ℕ → Option Str
unfolding is_kept encode_uri_unit
encode_unit c =
    if is_kept c then some (c ∷ []) else if c == 32 then some (b'+' ∷ []) else encode_uri_unit c

unfoldable pub sp_encode : Str → Option Str
unfolding encode_unit
sp_encode [] = some []
sp_encode (c ∷ s) = elim (encode_unit c) [
  | none ↦ none
  | some out ↦ elim (sp_encode s) [ none ↦ none | some rest ↦ some (out ++ rest) ]
]

-- `_sp_decode` is `unescape` of querystring.js, word for word.
unfoldable pub sp_decode : Str → Str
unfolding unescape
sp_decode = unescape

-- A pair of `_parseString`; `index_of` is the place plus one.
unfoldable pub read_pair : Str → Pair
unfolding index_of sp_decode
read_pair pair =
    let at = index_of pair b'=' in
    if at == 0
    then (sp_decode pair, [])
    else (sp_decode (take (at - 1) pair), sp_decode (drop at pair))

unfoldable pub read_pairs : List Str → List Pair
unfolding read_pair
read_pairs [] = []
read_pairs (pair ∷ pairs) =
    if length pair == 0 then read_pairs pairs else read_pair pair ∷ read_pairs pairs

unfoldable pub strip_mark : Str → Str
strip_mark [] = []
strip_mark (c ∷ s) = if c == b'?' then s else c ∷ s

-- What `_parseString` pushes on an empty list.
unfoldable pub parse_string : Str → List Pair
unfolding strip_mark read_pairs split
parse_string str = let s = strip_mark str in if length s == 0 then [] else read_pairs (split b'&' s)

unfoldable pub write_pairs : List Pair → Option (List Str)
unfolding sp_encode
write_pairs [] = some []
write_pairs ((key, value) ∷ list) = elim (sp_encode key) [
  | none ↦ none
  | some k ↦ elim (sp_encode value) [
    | none ↦ none
    | some v ↦ elim (write_pairs list) [ none ↦ none | some parts ↦ some ((k ++ b'=' ∷ v) ∷ parts) ]
  ]
]

-- `toString`
unfoldable pub to_text : List Pair → Option Str
unfolding write_pairs join
to_text list = elim (write_pairs list) [ none ↦ none | some parts ↦ some (join b'&' parts) ]

-- `_search` of the URL, for the text that `toString` gives
unfoldable pub mark : Str → Str
mark [] = []
mark (c ∷ s) = b'?' ∷ c ∷ s

-- `toString` throws, or its text is the new `_search`.
unfoldable pub set_search : Option Str → Params → Params × Bool
unfolding mark
set_search none p = (p, false)
set_search (some t) p = (record p { search = some (mark t) }, true)

unfoldable pub update_with : Option Str → Params → Params × Bool
unfolding to_text set_search
update_with none p = (p, true)
update_with (some old) p = set_search (to_text p.list) p

-- `_updateUrl`; false where `toString` throws, with the list as it is by then
unfoldable pub update_url : Params → Params × Bool
unfolding update_with
update_url p = update_with p.search p

unfoldable pub append : Str → Str → Params → Params × Bool
unfolding update_url
append name value p = update_url (record p { list = p.list ++ ((name, value) ∷ []) })

-- The loop of `delete`; `none` is a value that is undefined
unfoldable pub delete_from : Str → Option Str → List Pair → List Pair
unfolding str_eq
delete_from name value [] = []
delete_from name value ((k, v) ∷ list) =
    let rest = delete_from name value list in
    let other : Bool = elim value [ none ↦ false | some w ↦ not (str_eq v w) ] in
    if str_eq k name && not other then rest else (k, v) ∷ rest

unfoldable pub delete : Str → Option Str → Params → Params × Bool
unfolding delete_from update_url
delete name value p = update_url (record p { list = delete_from name value p.list })

unfoldable pub get : Str → List Pair → Option Str
unfolding str_eq
get name [] = none
get name ((k, v) ∷ list) = let rest = get name list in if str_eq k name then some v else rest

unfoldable pub get_all : Str → List Pair → List Str
unfolding str_eq
get_all name [] = []
get_all name ((k, v) ∷ list) =
    let rest = get_all name list in if str_eq k name then v ∷ rest else rest

unfoldable pub has : Str → Option Str → List Pair → Bool
unfolding str_eq
has name value [] = false
has name value ((k, v) ∷ list) =
    let same : Bool = elim value [ none ↦ true | some w ↦ str_eq v w ] in
    (str_eq k name && same) || has name value list

-- The loop of `set`, with `found`
unfoldable pub set_loop : Str → Str → Bool → List Pair → List Pair
unfolding str_eq
set_loop name value found [] = if found then [] else (name, value) ∷ []
set_loop name value found ((k, v) ∷ list) =
    let first = (name, value) ∷ set_loop name value true list in
    let skipped = set_loop name value true list in
    let kept = (k, v) ∷ set_loop name value found list in
    if str_eq k name then (if found then skipped else first) else kept

unfoldable pub set : Str → Str → Params → Params × Bool
unfolding set_loop update_url
set name value p = update_url (record p { list = set_loop name value false p.list })

-- `a < b` on strings
unfoldable pub is_less : Str → Str → Bool
is_less [] [] = false
is_less [] (y ∷ b) = true
is_less (x ∷ a) [] = false
is_less (x ∷ a) (y ∷ b) = (x == y && is_less a b) || not (leb y x)

-- The inner loop of `sort`: the pair at i is exchanged with every one that is less.
unfoldable pub exchange : Pair → List Pair → Pair × List Pair
unfolding is_less
exchange x [] = (x, [])
exchange x (y ∷ list) =
    let less = is_less y.0 x.0 in
    let (m, rest) = exchange (if less then y else x) list in (m, (if less then x else y) ∷ rest)

-- The outer loop; the fuel is the length of the list.
unfoldable pub sort_loop : ℕ → List Pair → List Pair
unfolding exchange
sort_loop zero list = list
sort_loop (suc n) [] = []
sort_loop (suc n) (x ∷ list) = let (m, rest) = exchange x list in m ∷ sort_loop n rest

unfoldable pub sort : Params → Params × Bool
unfolding sort_loop update_url
sort p = update_url (record p { list = sort_loop (length p.list) p.list })
