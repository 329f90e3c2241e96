-- ===== src/Http.antt =====
-- jac/js_engine/engine/src/builtins/js/http_core.js, the parts of HTTP/1.1 that node:http and node:https
-- share: lines that end in CR LF and the positions at which they are found. A position -1 is `none`.
pub mod Lines
pub mod Objects
pub mod Headers
pub mod Heads
pub mod Outgoing
pub mod Bodies
pub mod Routes
pub mod Validators
pub mod Chunked
use jaseci.Prelude.{
  ℕ, zero, suc, ◌+◌, ◌-◌, Bool, true, false, ◌&&◌, List, [], ◌∷◌, ◌++◌, Option, none, some, ltb,
  ◌==◌, if◌then◌else◌, Str, shift, length, take, drop,
}

abbrev pub cr : ℕ
cr = 13

abbrev pub lf : ℕ
lf = 10

abbrev pub crlf : Str
crlf = cr ∷ lf ∷ []

-- `s.substring(a, b)` with a ≤ b, and with b first where it is less
abbrev pub slice : ℕ → ℕ → Str → Str
slice a b s = take (b - a) (drop a s)

unfoldable pub substring : ℕ → ℕ → Str → Str
substring a b s = if ltb b a then slice b a s else slice a b s

-- The first place of CR LF.
unfoldable pub crlf_index : Str → Option ℕ
crlf_index [] = none
crlf_index (c ∷ []) = none
crlf_index (c ∷ d ∷ s) =
    let rest = crlf_index (d ∷ s) in if c == cr && d == lf then some 0 else shift 1 rest

-- `findCRLF(data, from)`; a place below 0 counts as 0, since nothing stands there
unfoldable pub find_crlf : Str → ℕ → Option ℕ
unfolding crlf_index
find_crlf text from = shift from (crlf_index (drop from text))

-- The loop of `splitHeaderLines`; each round goes on by 2 at least, so that the length is fuel enough.
unfoldable pub split_loop : ℕ → Str → ℕ → List Str
unfolding find_crlf
split_loop zero section pos = []
split_loop (suc fuel) section pos =
    if ltb pos (length section)
    then elim (find_crlf section pos) [
      | none ↦ drop pos section ∷ []
      | some nl ↦ slice pos nl section ∷ split_loop fuel section (nl + 2)
    ]
    else []

unfoldable pub split_header_lines : Str → List Str
unfolding split_loop
split_header_lines section = split_loop (length section) section 0

-- The lines of a head, each with its end.
unfoldable pub ended : List Str → Str
ended [] = []
ended (s ∷ lines) = s ++ (crlf ++ ended lines)
