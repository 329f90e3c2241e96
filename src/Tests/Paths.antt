-- ===== src/Tests/Paths.antt =====
-- Tests of path.js.
use jaseci.Prelude.{◌≡◌, refl, List, [], ◌∷◌, ◌++◌, none, some, codes, Str, true, foldl}
use jaseci.Path.{
  normalize, norm_parts, norm_step, norm_up, resolve, resolve_loop, relative, common, extname,
  parse, format, at,
}
use jaseci.Path.Norm.{walk}
use jaseci.Path.Normalize.{normalize-normalize}
use jaseci.Path.Resolve.{cd, show, resolve-cd}
use jaseci.Path.Relative.{resolve-relative}
use jaseci.Path.Parse.{normalize-format-parse}

abbrev mixed : Str
mixed = codes "/a//b/./c/../d/"

abbrev home : Str
home = codes "/home/user"

normalize-mixed : normalize mixed ≡ codes "/a/b/d/"
unfolding normalize norm_parts jaseci.Prelude.split norm_step jaseci.Prelude.str_eq norm_up at
    jaseci.Prelude.join
normalize-mixed = refl

normalize_above : normalize (codes "../../x/..") ≡ codes "../.."
unfolding normalize norm_parts jaseci.Prelude.split norm_step jaseci.Prelude.str_eq norm_up at
    jaseci.Prelude.join
normalize_above = refl

resolve_two : resolve home (codes "docs" ∷ codes "../src" ∷ []) ≡ codes "/home/user/src"
unfolding resolve norm_parts jaseci.Prelude.split resolve_loop at norm_step jaseci.Prelude.str_eq
    norm_up jaseci.Prelude.join
resolve_two = refl

relative_two : relative home (codes "/a/b/c") (codes "/a/d") ≡ codes "../../d"
unfolding relative norm_parts jaseci.Prelude.split resolve resolve_loop at norm_step
    jaseci.Prelude.str_eq jaseci.Prelude.join common
relative_two = refl

extname_test : extname (codes "/x/archive.tar.gz") ≡ codes ".gz"
unfolding extname jaseci.Prelude.last_index_of
extname_test = refl

-- A name of two dots is taken to have the extension ".".
extname_dots : extname (codes "..") ≡ codes "."
unfolding extname jaseci.Prelude.last_index_of
extname_dots = refl

normalize-normalize_example : normalize (normalize mixed) ≡ normalize mixed
normalize-normalize_example = normalize-normalize mixed

resolve-cd_example :
    resolve home (codes "docs" ∷ codes "/etc" ∷ codes ".." ∷ [])
    ≡ show (foldl cd (walk true [] home) (codes "docs" ∷ codes "/etc" ∷ codes ".." ∷ []))
resolve-cd_example = resolve-cd home (codes "docs" ∷ codes "/etc" ∷ codes ".." ∷ [])

resolve-relative_example :
    resolve home (mixed ∷ relative home mixed (codes "x/y") ∷ []) ≡ resolve home (codes "x/y" ∷ [])
resolve-relative_example = resolve-relative home mixed (codes "x/y")

normalize-format-parse_example : normalize (format (parse mixed)) ≡ normalize mixed
normalize-format-parse_example = normalize-format-parse mixed
