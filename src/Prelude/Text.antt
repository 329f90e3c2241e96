-- ===== src/Prelude/Text.antt =====
-- JavaScript strings as lists of UTF-16 code units, and the string methods of the language that
-- the source calls.
use Prim.Native.Nat.{ℕ, suc, ◌+◌}
use Prim.Native.Char.{code}
use Prim.Native.String.{String}
use mathlib.Core.Bool.{Bool, true, false, ◌&&◌, ◌||◌}
use mathlib.Core.List.{List, [], ◌∷◌, ◌++◌}
use mathlib.Core.Option.{Option, none, some}
use mathlib.Core.Logic.{◌≢◌, ◌↔◌, inl, inr}
use mathlib.Core.Path.{◌≡◌}
use native.Mathlib.Omega.{arith}
use jaseci.Prelude.Tests.{◌==◌, within, if◌then◌else◌, Bool-cases}
use jaseci.Prelude.Lists.{All}

abbrev pub Str : Type 0
Str = List ℕ

-- The code units of a literal (every literal of the source is ASCII).
abbrev pub codes : String → Str
codes String.[] = []
codes (String.◌∷◌ c s) = code c ∷ codes s

-- `a === b` on strings
unfoldable pub str_eq : Str → Str → Bool
str_eq [] [] = true
str_eq (x ∷ a) (y ∷ b) = x == y && str_eq a b
str_eq _ _ = false

pub str_eq_iff : (a b : Str) → (str_eq a b ≡ true) ↔ (a ≡ b)
unfolding str_eq
str_eq_iff (x ∷ a) (y ∷ b) = ground (arith, str_eq_iff a b)
str_eq_iff _ _ = ground arith

-- `s.toLowerCase()` on the units of Latin-1
unfoldable pub to_lower_case : Str → Str
to_lower_case [] = []
to_lower_case (c ∷ s) =
    let upper = within b'A' b'Z' c || within 0xc0 0xd6 c || within 0xd8 0xde c in
    (if upper then c + 32 else c) ∷ to_lower_case s

-- `s.indexOf(c)` plus one for a one-unit string `c`, so that 0 stands for -1
unfoldable pub index_of : Str → ℕ → ℕ
index_of [] c = 0
index_of (x ∷ s) c =
    let rest = index_of s c in if x == c then 1 else if rest == 0 then 0 else suc rest

-- `s.startsWith(pattern)`
unfoldable pub starts_with : Str → Str → Bool
starts_with [] s = true
starts_with (c ∷ pattern) [] = false
starts_with (c ∷ pattern) (x ∷ s) = c == x && starts_with pattern s

-- A place that is further on.
abbrev pub shift : ℕ → Option ℕ → Option ℕ
shift n none = none
shift n (some i) = some (n + i)

-- `s.indexOf(pattern)`, for a pattern that is not empty; `none` stands for -1
unfoldable pub index_of_text : Str → Str → Option ℕ
unfolding starts_with
index_of_text pattern [] = none
index_of_text pattern (c ∷ s) =
    let rest = index_of_text pattern s in
    if starts_with pattern (c ∷ s) then some 0 else shift 1 rest

-- `s.lastIndexOf(c)` plus one for a one-unit string `c`, so that 0 stands for -1
unfoldable pub last_index_of : Str → ℕ → ℕ
last_index_of [] c = 0
last_index_of (x ∷ s) c =
    let rest = last_index_of s c in if rest == 0 then (if x == c then 1 else 0) else suc rest

-- A code unit in front of the first piece.
unfoldable pub cons_head : ℕ → List Str → List Str
cons_head x [] = (x ∷ []) ∷ []
cons_head x (s ∷ pieces) = (x ∷ s) ∷ pieces

-- `s.split(c)` for a one-unit string `c`
unfoldable pub split : ℕ → Str → List Str
unfolding cons_head
split c [] = [] ∷ []
split c (x ∷ s) = let rest = split c s in if x == c then [] ∷ rest else cons_head x rest

-- `pieces.join(c)` for a one-unit string `c`
unfoldable pub join : ℕ → List Str → Str
join c [] = []
join c (s ∷ []) = s
join c (s ∷ t ∷ pieces) = s ++ (c ∷ join c (t ∷ pieces))

-- `c` does not occur in the string.
abbrev pub Free : ℕ → Str → Type 0
Free c = All (λ x. x ≢ c)

pub split-ne-nil : (c : ℕ) (s : Str) → split c s ≢ []
unfolding split
split-ne-nil c [] = cc
split-ne-nil c (x ∷ s) = elim (Bool-cases (x == c)) [
  | inl e ↦ rw e (cc)
  | inr e ↦ rw e (cons_head-ne-nil x (split c s))
]
  where
    cons_head-ne-nil : (x : ℕ) (p : List Str) → cons_head x p ≢ []
    cons_head-ne-nil x [] = cc
    cons_head-ne-nil x (_ ∷ _) = cc
