-- ===== src/Tests/Params.antt =====
-- URLSearchParams and the paths of url.js at concrete inputs.
use jaseci.Prelude.{
  within, ◌↔◌, Bool, ◌||◌, ◌==◌, ℕ, ◌<◌, All, true, [], ◌∷◌, none, some, Str, str_eq, if◌then◌else◌,
  codes, ◌≡◌, refl, arith, inl,
}
use mathlib.Core.List.{Perm}
use jaseci.SearchParams.{
  Params, parse_string, to_text, sp_encode, get, get_all, has, set, sort, mark,
}
use jaseci.Urls.{normalize_path, file_url_to_path, path, bad_host, bad_path, bad_scheme}
use jaseci.Urls.Segments.{IsResolved, normalize_path-IsResolved}
use jaseci.Unicode.{utf8, utf16}
use jaseci.Urls.Coded.{IsCoding}
use jaseci.Urls.Files.{file_url, IsAscii, file_url_to_path-utf8}
use jaseci.SearchParams.Encoding.{IsPlain, IsPlainUnit}
use jaseci.SearchParams.Written.{IsPlainPair, parse_string-to_text}
use jaseci.SearchParams.Updates.{get_all-set}
use jaseci.SearchParams.Sorted.{IsSorted, sort-IsSorted}
use jaseci.SearchParams.Linked.{IsLinked, Change, change, change-IsLinked}

-- Two names, one of them with two values, and their query
abbrev parameters : Params
parameters = record {
  list = (codes "b", codes "1") ∷ (codes "a", 0xe9 ∷ 32 ∷ b'x' ∷ []) ∷ (codes "b", codes "2") ∷ [];
  search = some (codes "?b=1&a=%C3%A9+x&b=2");
}

text_read : parse_string (codes "?b=1&a=%C3%A9+x&b=2") ≡ parameters.list
unfolding parse_string
text_read = refl

text_written : to_text parameters.list ≡ some (codes "b=1&a=%C3%A9+x&b=2")
unfolding to_text
text_written = refl

no_value : parse_string (codes "a&&b=c=d") ≡ (codes "a", []) ∷ (codes "b", codes "c=d") ∷ []
unfolding parse_string
no_value = refl

-- The bug of encoding unit by unit
emoji_throws : sp_encode (0xd83d ∷ 0xde00 ∷ []) ≡ none
unfolding sp_encode
emoji_throws = refl

kept_marks : sp_encode (codes "!~'()") ≡ some (codes "!~'()")
unfolding sp_encode
kept_marks = refl

set_first :
    (set (codes "b") (codes "9") parameters).0.list
    ≡ (codes "b", codes "9") ∷ (codes "a", 0xe9 ∷ 32 ∷ b'x' ∷ []) ∷ []
unfolding set
set_first = refl

unstable :
    (sort (record {
      list = (codes "b", codes "1") ∷ (codes "b", codes "2") ∷ (codes "a", []) ∷ [];
      search = none;
    })).0.list
    ≡ (codes "a", []) ∷ (codes "b", codes "2") ∷ (codes "b", codes "1") ∷ []
unfolding sort
unstable = refl

get_both : get_all (codes "b") parameters.list ≡ codes "1" ∷ codes "2" ∷ []
unfolding get_all
get_both = refl

has_value : has (codes "b") (some (codes "2")) parameters.list ≡ true
unfolding has
has_value = refl

get_first : get (codes "b") parameters.list ≡ some (codes "1")
unfolding get
get_first = refl

plain : (c : ℕ) → c < 0xd800 → IsPlainUnit c
plain c h = ((omega arith, inl h), omega arith)

parameters_plain : All IsPlainPair parameters.list
parameters_plain = (
  (b_plain, (plain _ (omega arith), tt)),
  (
    (
      (plain _ (omega arith), tt),
      (plain _ (omega arith), (plain _ (omega arith), (plain _ (omega arith), tt))),
    ),
    ((b_plain, (plain _ (omega arith), tt)), tt),
  ),
)
  where
    b_plain : IsPlain (codes "b")
    b_plain = (plain _ (omega arith), tt)

parameters-IsLinked : IsLinked parameters
parameters-IsLinked = record { plain = parameters_plain; agrees = text_read }

parse_string-to_text_example :
    (t : Str) × (to_text parameters.list ≡ some t)
    × (parse_string t ≡ parameters.list)
    × (parse_string (mark t) ≡ parameters.list)
parse_string-to_text_example = parse_string-to_text parameters.list parameters_plain

get_all-set_example : get_all (codes "b") (set (codes "b") (codes "9") parameters).0.list ≡ (
    if str_eq (codes "b") (codes "b") then codes "9" ∷ [] else get_all (codes "b") parameters.list)
get_all-set_example = get_all-set (codes "b") (codes "9") (codes "b") parameters

sort-IsSorted_example :
    IsSorted (sort parameters).0.list × Perm (sort parameters).0.list parameters.list
sort-IsSorted_example = sort-IsSorted parameters

change-IsLinked_example :
    ((change (Change.set (codes "b") (codes "x")) parameters).1 ≡ true)
    × IsLinked (change (Change.set (codes "b") (codes "x")) parameters).0
change-IsLinked_example =
    change-IsLinked (Change.set (codes "b") (codes "x")) parameters
      ((plain _ (omega arith), tt), (plain _ (omega arith), tt)) parameters-IsLinked

dots_removed : normalize_path (codes "/a/./b/../../../c/") ≡ codes "/c/"
unfolding normalize_path
dots_removed = refl

-- The bytes of a letter stay two units.
bytes_kept :
    file_url_to_path (codes "FILE://LocalHost/%C3%a9%zz") ≡ path (b'/' ∷ 0xc3 ∷ 0xa9 ∷ codes "%zz")
unfolding file_url_to_path
bytes_kept = refl

other_host : file_url_to_path (codes "file://host/a") ≡ bad_host
unfolding file_url_to_path
other_host = refl

hidden_slash : file_url_to_path (codes "file:///a%2Fb") ≡ bad_path
unfolding file_url_to_path
hidden_slash = refl

other_scheme : file_url_to_path (codes "http:///a") ≡ bad_scheme
unfolding file_url_to_path
other_scheme = refl

normalize_path-IsResolved_example : IsResolved (normalize_path (codes "a/../../b"))
normalize_path-IsResolved_example = normalize_path-IsResolved (codes "a/../../b")

abbrev keeps : ℕ → Bool
keeps c = within 97 122 c || c == b'/' || c == 92

keeps-IsCoding : IsCoding keeps
keeps-IsCoding = record {
  percent = refl;
  slash = refl;
  backslash = refl;
  ascii = λ c h. ground arith;
}

file_url_to_path-utf8_example :
    (file_url_to_path (file_url keeps (0xe9 ∷ b'%' ∷ [])) ≡ path (utf8 (b'/' ∷ 0xe9 ∷ b'%' ∷ [])))
    × ((file_url_to_path (file_url keeps (0xe9 ∷ b'%' ∷ []))
          ≡ path (utf16 (b'/' ∷ 0xe9 ∷ b'%' ∷ [])))
        ↔ IsAscii (0xe9 ∷ b'%' ∷ []))
file_url_to_path-utf8_example =
    file_url_to_path-utf8 keeps keeps-IsCoding (0xe9 ∷ b'%' ∷ [])
      ((omega arith, inl (omega arith)), ((omega arith, inl (omega arith)), tt))
