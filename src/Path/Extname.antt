-- ===== src/Path/Extname.antt =====
-- `extname` scans the whole path, `parse` only its base name.
use jaseci.Prelude.{
  ℕ, zero, suc, ◌+◌, ◌-◌, ◌≤◌, ◌<◌, true, [], ◌∷◌, ◌++◌, ◌≡◌, refl, ap, sym, ◌∙◌, arith, ◌==◌, ltb,
  leb, if◌then◌else◌, Bool-cases, inl, inr, Str, length, take, drop, take-append-drop, length-take,
  last_index_of, length-cons-ne-zero, lt→ltb, ltb→lt,
}
use jaseci.Path.{slash, dot, extname, parse, scan_last}
use jaseci.Path.Parse.{scan_last-zero}

last_index_of-le : (s : Str) (c : ℕ) → last_index_of s c ≤ length s
unfolding last_index_of
last_index_of-le [] c = omega arith
last_index_of-le (x ∷ s) c = ground (arith, last_index_of-le s c)

last_index_of-append :
    (a b : Str) (c : ℕ)
    → last_index_of (a ++ b) c
      ≡ (if last_index_of b c == 0 then last_index_of a c else length a + last_index_of b c)
unfolding last_index_of
last_index_of-append [] b c = ground arith
last_index_of-append (x ∷ a) b c = ground (arith, last_index_of-append a b c)

drop-drop : (m n : ℕ) (s : Str) → drop n (drop m s) ≡ drop (m + n) s
drop-drop zero n s = ap (λ k. drop k s) (omega arith)
drop-drop (suc m) zero [] = drop-nil (suc m + 0)
  where
    drop-nil : (k : ℕ) → [] ≡ drop {A = ℕ} k []
    drop-nil zero = refl
    drop-nil (suc k) = refl
drop-drop (suc m) (suc n) [] = let e : suc m + suc n ≡ suc (m + suc n) = omega arith in rw e
drop-drop (suc m) n (x ∷ s) =
    let e : suc m + n ≡ suc (m + n) = omega arith in drop-drop m n s ∙ rw e

-- The extension in terms of the last slash and of the last dot behind it.
abbrev cut_at : ℕ → ℕ → Str → Str
cut_at l d p = if ltb 1 d then drop (l + d - 1) p else []

-- The last dot of the path, seen from the last slash.
found_at :
    (p : Str)
    → let l = last_index_of p slash in
      let d = last_index_of (drop l p) dot in
      (d ≡ 0 → last_index_of p dot ≤ l) × (0 < d → last_index_of p dot ≡ l + d)
found_at p =
    let l = last_index_of p slash in
    let e = last_index_of-append (take l p) (drop l p) dot in
    let len = length-take l p (last_index_of-le p slash) in
    let whole : last_index_of p dot ≡ last_index_of (take l p ++ drop l p) dot =
      ap (λ q. last_index_of q dot) (sym (take-append-drop l p)) in
    ground (arith, e, whole, len, last_index_of-le (take l p) dot)

cut_at_lem :
    (l found d : ℕ) (q : Str)
    → (d ≡ 0 → found ≤ l) × (0 < d → found ≡ l + d)
    → (let last_dot = if ltb found l then 0 else found in
        if leb last_dot (l + 1) then [] else drop (last_dot - 1) q)
      ≡ cut_at l d q
cut_at_lem l found d q h = ground arith

extname-cut_at :
    (x : ℕ) (p : Str)
    → let q = x ∷ p in
      let l = last_index_of q slash in extname q ≡ cut_at l (last_index_of (drop l q) dot) q
unfolding extname
extname-cut_at x p = rw (length-cons-ne-zero x p) (cut_at_lem _ _ _ (x ∷ p) (found_at (x ∷ p)))

base-drop : (l : ℕ) (p : Str) → (if ltb 0 l then drop l p else p) ≡ drop l p
base-drop zero p = refl
base-drop (suc l) p = let e : ltb 0 (suc l) ≡ true = lt→ltb _ _ (omega arith) in rw e

ext-cut_at : (l d : ℕ) (p : Str) → (if ltb 1 d then drop (d - 1) (drop l p) else []) ≡ cut_at l d p
ext-cut_at l d p = elim (Bool-cases (ltb 1 d)) [
  | inl e ↦ rw e (drop-drop l (d - 1) p ∙ ap (λ k. drop k p) (omega (arith, ltb→lt 1 d e)))
  | inr e ↦ rw e
]

parse-cut_at :
    (p : Str)
    → let l = last_index_of p slash in (parse p).ext ≡ cut_at l (last_index_of (drop l p) dot) p
unfolding parse
parse-cut_at p =
    rw (scan_last-zero slash p, base-drop (last_index_of p slash) p, scan_last-zero)
      (ext-cut_at (last_index_of p slash) (last_index_of (drop (last_index_of p slash) p) dot) p)

-- `extname` and the field ext of `parse` agree on every path.
pub extname-parse : (p : Str) → extname p ≡ (parse p).ext
unfolding extname parse scan_last
extname-parse [] = refl
extname-parse (x ∷ p) = extname-cut_at x p ∙ sym (parse-cut_at (x ∷ p))
