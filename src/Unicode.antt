-- ===== src/Unicode.antt =====
-- Code points, and the two ways in which the modules of jac/js_engine/engine/src/builtins/js write
-- them: UTF-16 code units in a string, UTF-8 bytes in a buffer. This is the independent description
-- that the encoders and decoders are compared with.
pub mod Cases
use jaseci.Prelude.{
  ℕ, zero, suc, ◌+◌, ◌-◌, ◌*◌, ◌/◌, ◌%◌, ◌≤◌, ◌<◌, Bool, true, false, List, [], ◌∷◌, ◌++◌, ◌⊎◌, ltb,
  if◌then◌else◌, Str, All,
}

abbrev pub Bytes : Type 0
Bytes = List ℕ

-- A Unicode scalar value: a code point that is no surrogate.
abbrev pub IsScalar : ℕ → Type 0
IsScalar c = (c < 0x110000) × ((c < 0xd800) ⊎ (0xe000 ≤ c))

-- The UTF-16 code units of a code point.
abbrev pub units : ℕ → Str
units c =
    if ltb c 0x10000
    then c ∷ []
    else (0xd800 + (c - 0x10000) / 1024) ∷ (0xdc00 + (c - 0x10000) % 1024) ∷ []

-- The UTF-8 bytes of a code point.
abbrev pub bytes : ℕ → Bytes
bytes c =
    if ltb c 0x80
    then c ∷ []
    else if ltb c 0x800
    then (0xc0 + c / 64) ∷ (0x80 + c % 64) ∷ []
    else if ltb c 0x10000
    then (0xe0 + c / 4096) ∷ (0x80 + c / 64 % 64) ∷ (0x80 + c % 64) ∷ []
    else (0xf0 + c / 262144) ∷ (0x80 + c / 4096 % 64) ∷ (0x80 + c / 64 % 64) ∷ (0x80 + c % 64) ∷ []

-- A text of code points in each form.
abbrev pub utf16 : List ℕ → Str
utf16 [] = []
utf16 (c ∷ cs) = units c ++ utf16 cs

abbrev pub utf8 : List ℕ → Bytes
utf8 [] = []
utf8 (c ∷ cs) = bytes c ++ utf8 cs

abbrev pub Scalars : List ℕ → Type 0
Scalars = All IsScalar
