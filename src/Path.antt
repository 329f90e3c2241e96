-- ===== src/Path.antt =====
-- The POSIX path functions of jac/js_engine/engine/src/builtins/js/path.js. An argument is a
-- string by its type, so that `_validatePathString` passes; `process.cwd()` is the parameter `cwd`.
pub mod Norm
mod Render
pub mod Normalize
pub mod Resolve
pub mod Relative
mod Slashes
pub mod Parse
pub mod Dirname
pub mod Extname
use jaseci.Prelude.{
  ℕ, zero, suc, ◌+◌, ◌-◌, Bool, true, false, not, ◌&&◌, ◌||◌, List, [], ◌∷◌, ◌++◌, foldl, reverse,
  Option, none, some, ltb, leb, ◌==◌, if◌then◌else◌, length, get_elem?, take, drop, replicate, Str,
  codes, str_eq, last_index_of, split, join,
}

abbrev pub slash : ℕ
slash = b'/'

abbrev pub dot : ℕ
dot = b'.'

abbrev pub up : Str
up = codes ".."

-- `p[i] === c`
unfoldable pub at : Str → ℕ → ℕ → Bool
at p i c = elim (get_elem? p i) [ none ↦ false | some x ↦ x == c ]

abbrev pub is_empty {ℓ} : {A : Type ℓ} → List A → Bool
is_empty [] = true
is_empty (_ ∷ _) = false

-- The branch of `_normParts` for "..". The array is held as a stack: its last element is the head.
unfoldable pub norm_up : Bool → List Str → List Str
norm_up is_abs [] = if not is_abs then up ∷ [] else []
norm_up is_abs (top ∷ result) =
    if not (str_eq top up) then result else if not is_abs then up ∷ top ∷ result else top ∷ result

-- One round of the loop of `_normParts`.
unfoldable pub norm_step : Bool → List Str → Str → List Str
norm_step is_abs result seg =
    if str_eq seg [] || str_eq seg (codes ".")
    then result
    else if str_eq seg up
    then norm_up is_abs result
    else seg ∷ result

unfoldable pub norm_parts : List Str → Bool → List Str
norm_parts parts is_abs = reverse (foldl (norm_step is_abs) [] parts)

-- The loop of `_stripTrailing`, which returns the final `end`.
unfoldable pub strip_end : Str → ℕ → ℕ
strip_end p zero = 0
strip_end p (suc e) = if ltb 1 (suc e) && at p e slash then strip_end p e else suc e

unfoldable pub strip_trailing : Str → Str
strip_trailing p = let end = strip_end p (length p) in if end == length p then p else take end p

unfoldable pub is_absolute : Str → Bool
is_absolute p = ltb 0 (length p) && at p 0 slash

unfoldable pub normalize : Str → Str
normalize p =
    let is_abs = at p 0 slash in
    let trailing_sep = at p (length p - 1) slash in
    let normed = norm_parts (split slash p) is_abs in
    let joined = join slash normed in
    let closed = if trailing_sep then joined ++ codes "/" else joined in
    if length p == 0
    then codes "."
    else if is_empty normed
    then (if is_abs then codes "/" else if trailing_sep then codes "./" else codes ".")
    else if is_abs
    then slash ∷ closed
    else closed

-- One round of the loop of `join`.
unfoldable pub join_step : Str → Str → Str
join_step joined seg =
    if ltb 0 (length seg)
    then (if ltb 0 (length joined) then joined ++ codes "/" else joined) ++ seg
    else joined

unfoldable pub join_paths : List Str → Str
join_paths args =
    let joined = foldl join_step [] args in
    if length joined == 0 then codes "." else normalize joined

-- The loop of `resolve` over its arguments, the last one first.
unfoldable pub resolve_loop : List Str → Str → Str
resolve_loop [] resolved = resolved
resolve_loop (seg ∷ rest) resolved =
    let extended = if length resolved == 0 then seg else seg ++ (slash ∷ resolved) in
    let further = resolve_loop rest extended in
    let skipped = resolve_loop rest resolved in
    if ltb 0 (length seg) then (if at seg 0 slash then extended else further) else skipped

unfoldable pub resolve : Str → List Str → Str
resolve cwd args =
    let resolved = resolve_loop (reverse args) [] in
    let under_cwd = if ltb 0 (length resolved) then cwd ++ (slash ∷ resolved) else cwd in
    let full = if length resolved == 0 || not (at resolved 0 slash) then under_cwd else resolved in
    let normed = norm_parts (split slash full) true in
    if is_empty normed then codes "/" else slash ∷ join slash normed

unfoldable pub dirname : Str → Str
dirname p =
    let stripped = strip_trailing p in
    let last_slash = last_index_of stripped slash in
    if length p == 0
    then codes "."
    else if last_slash == 0
    then codes "."
    else if last_slash == 1
    then codes "/"
    else take (last_slash - 1) stripped

-- `ext` is `none` where the argument is missing.
unfoldable pub basename : Str → Option Str → Str
basename p ext =
    let stripped = strip_trailing p in
    let last_slash = last_index_of stripped slash in
    let base = if ltb 0 last_slash then drop last_slash stripped else stripped in
    let cut = λ (e : Str).
      if ltb 0 (length e) && ltb (length e) (length base)
      then (if str_eq (drop (length base - length e) base) e
          then take (length base - length e) base
          else base)
      else base in
    if length p == 0 then [] else elim ext [ none ↦ base | some e ↦ cut e ]

-- Both indices are held plus one, as `last_index_of` gives them.
unfoldable pub extname : Str → Str
extname p =
    let last_slash = last_index_of p slash in
    let found = last_index_of p dot in
    let last_dot = if ltb found last_slash then 0 else found in
    let base_start = last_slash in
    if length p == 0
    then []
    else if leb last_dot (base_start + 1)
    then []
    else drop (last_dot - 1) p

-- The loop of `relative` over the common prefix.
unfoldable pub common : List Str → List Str → ℕ
common (x ∷ a) (y ∷ b) = if str_eq x y then suc (common a b) else 0
common _ _ = 0

unfoldable pub relative : Str → Str → Str → Str
relative cwd from to =
    let from_parts = norm_parts (split slash (resolve cwd (from ∷ []))) true in
    let to_parts = norm_parts (split slash (resolve cwd (to ∷ []))) true in
    let shared = common from_parts to_parts in
    let result = replicate (length from_parts - shared) up ++ drop shared to_parts in
    if is_empty result then [] else join slash result

-- The object that `parse` returns and `format` reads.
pub record PathObject : Type 0 where
  pub root : Str
  pub dir : Str
  pub base : Str
  pub ext : Str
  pub name : Str

-- The two scanning loops of `parse`: `i` is the index of the head, `last` the result plus one.
unfoldable pub scan_last : ℕ → Str → ℕ → ℕ → ℕ
scan_last c [] i last = last
scan_last c (x ∷ s) i last = scan_last c s (i + 1) (if x == c then i + 1 else last)

unfoldable pub parse : Str → PathObject
parse p =
    let root = if at p 0 slash then codes "/" else [] in
    let last_slash = scan_last slash p 0 0 in
    let head = take (last_slash - 1) p in
    let dir = if length head == 0 && ltb 0 (length root) then root else head in
    let base = if ltb 0 last_slash then drop last_slash p else p in
    let last_dot = scan_last dot base 0 0 in
    let dotted = ltb 1 last_dot in
    record {
      root = root;
      dir = if ltb 0 last_slash then dir else [];
      base = base;
      ext = if dotted then drop (last_dot - 1) base else [];
      name = if dotted then take (last_dot - 1) base else base;
    }

-- A field that the object lacks is the empty string, as `obj.dir || ""` makes it.
unfoldable pub format : PathObject → Str
format obj =
    let base = if length obj.base == 0 then obj.name ++ obj.ext else obj.base in
    if ltb 0 (length obj.dir)
    then (if at obj.dir (length obj.dir - 1) slash
        then obj.dir ++ base
        else obj.dir ++ (slash ∷ base))
    else obj.root ++ base

unfoldable pub to_namespaced_path : Str → Str
to_namespaced_path p = p
