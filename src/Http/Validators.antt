-- ===== src/Http/Validators.antt =====
-- `validateHeaderName` and `validateHeaderValue` of jac/js_engine/engine/src/builtins/js/http_core.js,
-- for strings.
pub mod Accepted
use jaseci.Prelude.{Bool, true, false, ◌||◌, List, [], ◌∷◌, ℕ, ltb, leb, ◌==◌, if◌then◌else◌, Str}

-- How a validator ends: it returns, or throws an error with a code.
pub data Check : Type 0 where
  valid : Check
  invalid_arg_type : Check
  invalid_http_token : Check
  invalid_char : Check

-- The units that are refused in a name.
unfoldable pub refused_in_name : ℕ → Bool
refused_in_name c =
    ltb 255 c
    || leb c 31
    || c == 127
    || c == 32
    || c == 40
    || c == 41
    || c == 60
    || c == 62
    || c == 64
    || c == 44
    || c == 59
    || c == 58
    || c == 92
    || c == 34
    || c == 47
    || c == 91
    || c == 93
    || c == 63
    || c == 61
    || c == 123
    || c == 125

unfoldable pub check_name : Str → Check
unfolding refused_in_name
check_name [] = valid
check_name (c ∷ name) =
    let rest = check_name name in if refused_in_name c then invalid_http_token else rest

unfoldable pub validate_header_name : Str → Check
unfolding check_name
validate_header_name [] = invalid_arg_type
validate_header_name (c ∷ name) = check_name (c ∷ name)

unfoldable pub refused_in_value : ℕ → Bool
refused_in_value c = c == 0 || c == 10 || c == 13 || ltb 255 c

-- A value is given as the string that `String` makes of it.
unfoldable pub validate_header_value : Str → Check
unfolding refused_in_value
validate_header_value [] = valid
validate_header_value (c ∷ value) =
    let rest = validate_header_value value in if refused_in_value c then invalid_char else rest
