-- ===== src/Tests/Fetched.antt =====
-- Headers of fetch.js at concrete inputs.
use jaseci.Prelude.{
  ◌++◌, true, [], ◌∷◌, none, some, str_eq, if◌then◌else◌, codes, to_lower_case, ◌≡◌, refl,
}
use mathlib.Core.Option
use jaseci.Numerals.{trim}
use jaseci.FetchHeaders.{
  Headers, append, set, delete, get, has, get_set_cookie, keys, values, to_raw, from_pairs,
  from_headers, unguarded, immutable, empty,
}
use jaseci.FetchHeaders.Laws.{get-set, get-append, added}

abbrev headers : Headers
headers = record {
  entries =
      (codes "accept", codes "a")
      ∷ (codes "set-cookie", codes "x=1")
      ∷ (codes "accept", codes "b")
      ∷ [];
  guard = unguarded;
}

get_joined : get (codes "Accept") headers ≡ some (codes "a, b")
unfolding get to_lower_case
get_joined = refl

get_missing : get (codes "host") headers ≡ none
unfolding get to_lower_case
get_missing = refl

has_cookie : has (codes "Set-Cookie") headers ≡ true
unfolding has to_lower_case
has_cookie = refl

cookies_read : get_set_cookie headers ≡ codes "x=1" ∷ []
unfolding get_set_cookie
cookies_read = refl

made_small :
    from_pairs ((codes "Host", codes " a ") ∷ [])
    ≡ some (record { entries = (codes "host", codes "a") ∷ []; guard = unguarded })
unfolding from_pairs to_lower_case trim
made_small = refl

refused : delete (codes "host") (record { entries = []; guard = immutable }) ≡ none
unfolding delete
refused = refl

copy_open : from_headers (record { entries = []; guard = immutable }) ≡ empty
unfolding from_headers
copy_open = refl

-- A value may hold the end of its line.
line_added :
    Option.map to_raw (append (codes "a") (b'b' ∷ 13 ∷ 10 ∷ codes "c: d") empty)
    ≡ some (codes "a: b" ++ 13 ∷ 10 ∷ codes "c: d" ++ 13 ∷ 10 ∷ [])
unfolding append to_raw to_lower_case trim
line_added = refl

get-set_example :
    (next : Headers) × (set (codes "ACCEPT") (codes " c ") headers ≡ some next)
    × (get (codes "accept") next ≡ (
        if str_eq (to_lower_case (codes "accept")) (to_lower_case (codes "ACCEPT"))
        then some (trim (codes " c "))
        else get (codes "accept") headers))
unfolding jaseci.FetchHeaders.is_immutable
get-set_example = get-set (codes "ACCEPT") (codes " c ") (codes "accept") headers refl

get-append_example :
    (next : Headers) × (append (codes "ACCEPT") (codes " c ") headers ≡ some next)
    × (get (codes "accept") next ≡ (
        if str_eq (to_lower_case (codes "ACCEPT")) (to_lower_case (codes "accept"))
        then some (added (get (codes "accept") headers) (trim (codes " c ")))
        else get (codes "accept") headers))
unfolding jaseci.FetchHeaders.is_immutable
get-append_example = get-append (codes "ACCEPT") (codes " c ") (codes "accept") headers refl
