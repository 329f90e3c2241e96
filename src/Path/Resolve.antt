-- ===== src/Path/Resolve.antt =====
-- `resolve` scans its arguments from the last one and stops at an absolute one; what it returns is
-- what changing into the arguments one after the other gives, the first one first.
use jaseci.Prelude.{
  ℕ, true, false, not, ◌||◌, List, [], ◌∷◌, ◌++◌, foldl, reverse, ◌≡◌, refl, ap, sym, ◌∙◌, ◌==◌,
  if◌then◌else◌, Bool-cases, inl, inr, Str, length, reverse-cons, reverse-reverse, foldl-append,
  length-cons-ne-zero, length-cons-pos, ltb,
}
use jaseci.Path.{slash, at, is_absolute, resolve, resolve_loop, normalize, norm_parts}
use jaseci.Path.Norm.{Normal, walk, walk-Normal, walk-append, walk-nil}
use jaseci.Path.Render.{render}
use jaseci.Path.Normalize.{normalize-render}

-- The directory (as a stack of names) after changing into `seg`.
abbrev pub cd : List Str → Str → List Str
cd st seg = walk true (if at seg 0 slash then [] else st) seg

-- The absolute path of a directory.
abbrev pub show : List Str → Str
show st = render true false (reverse st)

pub cd-nil : (st : List Str) → cd st [] ≡ st
unfolding at
cd-nil st = walk-nil true st

pub cd-Normal : (st : List Str) (seg : Str) → Normal true st → Normal true (cd st seg)
cd-Normal st seg h = elim (Bool-cases (at seg 0 slash)) [
  | inl e ↦ rw e (walk-Normal true [] seg tt)
  | inr e ↦ rw e (walk-Normal true st seg h)
]

pub cds-Normal : (args : List Str) (st : List Str) → Normal true st → Normal true (foldl cd st args)
cds-Normal [] st h = h
cds-Normal (seg ∷ args) st h = cds-Normal args (cd st seg) (cd-Normal st seg h)

-- The text that the loop holds after one more argument.
abbrev extend : Str → Str → Str
extend seg resolved = if length resolved == 0 then seg else seg ++ (slash ∷ resolved)

at-extend :
    (x : ℕ) (seg resolved : Str) → at (extend (x ∷ seg) resolved) 0 slash ≡ at (x ∷ seg) 0 slash
unfolding at
at-extend x seg [] = refl
at-extend x seg (y ∷ r) = rw length-cons-ne-zero

cd-extend :
    (st : List Str) (x : ℕ) (seg resolved : Str)
    → at resolved 0 slash ≡ false
    → cd st (extend (x ∷ seg) resolved) ≡ cd (cd st (x ∷ seg)) resolved
cd-extend st x seg [] h = sym (cd-nil (cd st (x ∷ seg)))
cd-extend st x seg (y ∷ r) h =
    rw (at-extend x seg (y ∷ r), h, length-cons-ne-zero y r) (walk-append true _ (x ∷ seg) (y ∷ r))

-- One round of the loop.
module _ (x : ℕ) (seg : Str) (rest : List Str) (resolved : Str) where
  resolve_loop-absolute :
      at (x ∷ seg) 0 slash ≡ true
      → resolve_loop ((x ∷ seg) ∷ rest) resolved ≡ extend (x ∷ seg) resolved
  unfolding resolve_loop
  resolve_loop-absolute e = rw (length-cons-pos x seg, e)

  resolve_loop-relative :
      at (x ∷ seg) 0 slash ≡ false
      → resolve_loop ((x ∷ seg) ∷ rest) resolved ≡ resolve_loop rest (extend (x ∷ seg) resolved)
  unfolding resolve_loop
  resolve_loop-relative e = rw (length-cons-pos x seg, e)

resolve_loop-nil : (resolved : Str) → resolve_loop [] resolved ≡ resolved
unfolding resolve_loop
resolve_loop-nil resolved = refl

resolve_loop-empty :
    (rest : List Str) (resolved : Str)
    → resolve_loop ([] ∷ rest) resolved ≡ resolve_loop rest resolved
unfolding resolve_loop
resolve_loop-empty rest resolved = refl

foldl-reverse-cons :
    (start : List Str) (seg : Str) (rest : List Str)
    → foldl cd start (reverse (seg ∷ rest)) ≡ cd (foldl cd start (reverse rest)) seg
foldl-reverse-cons start seg rest = rw (reverse-cons, foldl-append)

cd-absolute : (a b : List Str) (seg : Str) → at seg 0 slash ≡ true → cd a seg ≡ cd b seg
cd-absolute a b seg e = rw e

cd-resolve_loop :
    (start : List Str) (rest : List Str) (resolved : Str)
    → at resolved 0 slash ≡ false
    → cd start (resolve_loop rest resolved) ≡ cd (foldl cd start (reverse rest)) resolved
cd-resolve_loop start [] resolved h = ap (cd start) (resolve_loop-nil resolved)
cd-resolve_loop start ([] ∷ rest) resolved h =
    ap (cd start) (resolve_loop-empty rest resolved)
    ∙ cd-resolve_loop start rest resolved h
    ∙ ap (λ st. cd st resolved) (sym (foldl-reverse-cons start [] rest ∙ cd-nil _))
cd-resolve_loop start ((x ∷ seg) ∷ rest) resolved h = elim (Bool-cases (at (x ∷ seg) 0 slash)) [
  | inl e ↦
      ap (cd start) (resolve_loop-absolute x seg rest resolved e)
      ∙ cd-extend start x seg resolved h
      ∙ ap (λ st. cd st resolved)
          (cd-absolute start _ (x ∷ seg) e ∙ sym (foldl-reverse-cons start (x ∷ seg) rest))
  | inr e ↦
      ap (cd start) (resolve_loop-relative x seg rest resolved e)
      ∙ cd-resolve_loop start rest (extend (x ∷ seg) resolved) (at-extend x seg resolved ∙ e)
      ∙ cd-extend _ x seg resolved h
      ∙ ap (λ st. cd st resolved) (sym (foldl-reverse-cons start (x ∷ seg) rest))
]

-- The text that `resolve` hands to `_normParts`.
abbrev full : Str → Str → Str
full cwd resolved =
    let under_cwd = if ltb 0 (length resolved) then cwd ++ (slash ∷ resolved) else cwd in
    if length resolved == 0 || not (at resolved 0 slash) then under_cwd else resolved

walk-full : (cwd resolved : Str) → walk true [] (full cwd resolved) ≡ cd (walk true [] cwd) resolved
walk-full cwd [] = sym (cd-nil (walk true [] cwd))
walk-full cwd (x ∷ r) = elim (Bool-cases (at (x ∷ r) 0 slash)) [
  | inl e ↦ rw (length-cons-ne-zero x r, e)
  | inr e ↦ rw (length-cons-ne-zero x r, length-cons-pos x r, e) (walk-append true [] cwd (x ∷ r))
]

-- Resolving changes from `cwd` into each argument in turn, and shows the directory reached.
pub resolve-cd :
    (cwd : Str) (args : List Str) → resolve cwd args ≡ show (foldl cd (walk true [] cwd) args)
unfolding resolve norm_parts
resolve-cd cwd args = ap show (
    walk-full cwd (resolve_loop (reverse args) [])
    ∙ cd-resolve_loop (walk true [] cwd) (reverse args) [] (unfold at in refl)
    ∙ cd-nil _
    ∙ ap (foldl cd (walk true [] cwd)) (reverse-reverse args))

-- The directory that `resolve` shows is normalised.
pub reached-Normal : (cwd : Str) (args : List Str) → Normal true (foldl cd (walk true [] cwd) args)
reached-Normal cwd args = cds-Normal args _ (walk-Normal true [] cwd tt)

is_absolute-render : (parts : List Str) → is_absolute (render true false parts) ≡ true
unfolding is_absolute at
is_absolute-render [] = refl
is_absolute-render (s ∷ parts) = rw length-cons-pos

-- The result of `resolve` is absolute, and `normalize` leaves it as it is, for all arguments.
pub resolve_normalised :
    (cwd : Str) (args : List Str)
    → (is_absolute (resolve cwd args) ≡ true) × (normalize (resolve cwd args) ≡ resolve cwd args)
resolve_normalised cwd args = rw resolve-cd (
  is_absolute-render (reverse (foldl cd (walk true [] cwd) args)),
  normalize-render true false (foldl cd (walk true [] cwd) args) (reached-Normal cwd args),
)
