-- ===== src/Urls.antt =====
-- The paths of URLs in jac/js_engine/engine/src/builtins/js/url.js: `_normalizePath`, `_percentDecodePath`
-- and `fileURLToPath` of a string.
pub mod Segments
pub mod Coded
pub mod Files
use jaseci.Prelude.{
  ℕ, zero, suc, ◌-◌, Bool, true, false, not, ◌&&◌, ◌||◌, List, [], ◌∷◌, ◌++◌, Option, none, some,
  ltb, ◌==◌, if◌then◌else◌, Str, codes, str_eq, length, take, drop, split, join, starts_with,
  index_of, index_of_text, to_lower_case,
}
use jaseci.Querystring.{octet}

-- `out.pop()`
unfoldable pub drop_last : List Str → List Str
drop_last [] = []
drop_last (x ∷ []) = []
drop_last (x ∷ y ∷ out) = x ∷ drop_last (y ∷ out)

-- A round of the loop of `_normalizePath`
unfoldable pub put_segment : List Str → Str → List Str
unfolding str_eq drop_last
put_segment out seg =
    if str_eq seg (codes ".")
    then out
    else if str_eq seg (codes "..")
    then (if ltb 1 (length out) then drop_last out else out)
    else out ++ seg ∷ []

unfoldable pub put_segments : List Str → List Str → List Str
unfolding put_segment
put_segments out [] = out
put_segments out (seg ∷ parts) = put_segments (put_segment out seg) parts

-- The slash that `_normalizePath` puts in front of a result without one
unfoldable pub absolute : Str → Str
absolute [] = b'/' ∷ []
absolute (c ∷ s) = if not (c == b'/') then b'/' ∷ c ∷ s else c ∷ s

unfoldable pub normalize_path : Str → Str
unfolding absolute join split put_segments
normalize_path path = absolute (join b'/' (put_segments [] (split b'/' path)))

-- `_percentDecodePath`, with the number of units that the last round took beyond its own; `octet` is
-- the byte of a percent sign with two hexadecimal digits.
unfoldable pub percent_decode : ℕ → Str → Str
unfolding octet
percent_decode skip [] = []
percent_decode (suc skip) (c ∷ s) = percent_decode skip s
percent_decode zero (c ∷ s) = elim (octet (c ∷ s)) [
  | none ↦ c ∷ percent_decode zero s
  | some b ↦ b ∷ percent_decode 2 s
]

-- `/%2f/i.test(rawPath) || /%5c/i.test(rawPath)`
unfoldable pub is_found : Option ℕ → Bool
is_found none = false
is_found (some i) = true

unfoldable pub has_text : Str → Str → Bool
unfolding index_of_text is_found
has_text pattern s = is_found (index_of_text pattern s)

unfoldable pub has_separator : Str → Bool
unfolding has_text to_lower_case
has_separator path =
    has_text (codes "%2f") (to_lower_case path) || has_text (codes "%5c") (to_lower_case path)

-- What `fileURLToPath` returns or throws
pub data FilePath : Type 0 where
  path : Str → FilePath
  bad_scheme no_path bad_host bad_path : FilePath

-- `fileURLToPath` from the test of `rawPath` on
unfoldable pub decoded_path : Str → FilePath
unfolding has_separator percent_decode
decoded_path raw = if has_separator raw then bad_path else path (percent_decode zero raw)

-- `rest` is split at `pathStart`, which is `start - 1`.
unfoldable pub path_of_rest : Str → FilePath
unfolding index_of str_eq to_lower_case decoded_path
path_of_rest rest =
    let start = index_of rest b'/' in
    if start == 0
    then no_path
    else if ltb 0 (start - 1)
        && not (str_eq (to_lower_case (take (start - 1) rest)) (codes "localhost"))
    then bad_host
    else decoded_path (drop (start - 1) rest)

unfoldable pub file_url_to_path : Str → FilePath
unfolding str_eq to_lower_case path_of_rest
file_url_to_path href =
    if ltb (length href) 7 || not (str_eq (to_lower_case (take 7 href)) (codes "file://"))
    then bad_scheme
    else path_of_rest (drop 7 href)
