-- ===== src/Path/Relative.antt =====
-- `relative`: the path that leads from one directory to the other.
use jaseci.Prelude.{
  ℕ, zero, suc, ◌-◌, ◌≤◌, true, false, List, [], ◌∷◌, ◌++◌, foldl, reverse, ◌≡◌, refl, ap, sym, ◌∙◌,
  arith, if◌then◌else◌, Bool-cases, inl, inr, All, Str, length, join, reverse-cons, reverse-append,
  reverse-reverse, foldl-append, split, split-join, take, drop, replicate, take-append-drop,
  length-append, drop-append, str_eq, str_eq_iff, All-append, append_assoc, ap₂, length-drop, subst,
}
use jaseci.Path.{slash, up, is_empty, resolve, relative, common, norm_parts, norm_step, norm_up}
use jaseci.Path.Norm.{Seg, Normal, walk, walk-Normal, norm_step-Fits}
use jaseci.Path.Render.{join-IsInner, Normal-All, reverse-ne-nil}
use jaseci.Path.Normalize.{Shows-render, All-Seg-Free}
use jaseci.Path.Resolve.{cd, show, cd-nil, cd-Normal, resolve-cd}

-- In an absolute directory ".." removes the last segment.
norm_step-up : (st : List Str) → Normal true st → norm_step true st up ≡ drop 1 st
unfolding norm_step norm_up str_eq
norm_step-up [] h = refl
norm_step-up (top ∷ st) h = elim (Bool-cases (str_eq top up)) [
  | inl e ↦ absurd (cc (h.0.relative ((str_eq_iff top up).0 e)))
  | inr e ↦ rw e
]

ups-drop :
    (n : ℕ) (st : List Str)
    → Normal true st
    → foldl (norm_step true) st (replicate n up) ≡ drop n st
ups-drop zero st h = refl
ups-drop (suc n) [] h =
    ap (λ st. foldl (norm_step true) st (replicate n up)) (norm_step-up [] tt)
    ∙ ups-drop n [] tt
    ∙ drop-nil n
  where
    drop-nil : (m : ℕ) → drop {A = Str} m [] ≡ []
    drop-nil zero = refl
    drop-nil (suc m) = refl
ups-drop (suc n) (top ∷ st) h =
    ap (λ s. foldl (norm_step true) s (replicate n up)) (norm_step-up (top ∷ st) h)
    ∙ ups-drop n st h.1

Normal-drop : (n : ℕ) (st : List Str) → Normal true st → Normal true (drop n st)
Normal-drop zero st h = h
Normal-drop (suc n) [] h = h
Normal-drop (suc n) (_ ∷ st) h = Normal-drop n st h.1

Normal-append : (a b : List Str) → Normal true (a ++ b) → Normal true b
Normal-append [] b h = h
Normal-append (_ ∷ a) b h = Normal-append a b h.1

-- Segments that make a normalised stack are pushed one by one.
pushes :
    (parts st : List Str)
    → Normal true (reverse parts ++ st)
    → foldl (norm_step true) st parts ≡ reverse parts ++ st
pushes [] st h = refl
pushes (s ∷ parts) st h =
    let k : Normal true (reverse parts ++ (s ∷ st)) = rw (regroup) at h in
    rw (norm_step-Fits true s st (Normal-append (reverse parts) (s ∷ st) k).0)
      (pushes parts (s ∷ st) k ∙ sym regroup)
  where
    regroup : reverse (s ∷ parts) ++ st ≡ reverse parts ++ (s ∷ st)
    regroup = rw (reverse-cons, append_assoc)

All-drop : (n : ℕ) (parts : List Str) → All Seg parts → All Seg (drop n parts)
All-drop zero parts h = h
All-drop (suc n) [] h = h
All-drop (suc n) (_ ∷ parts) h = All-drop n parts h.1

All-replicate-up : (n : ℕ) → All Seg (replicate n up)
All-replicate-up zero = tt
All-replicate-up (suc n) = ((omega arith, (λ e. cc), (λ e. cc)), All-replicate-up n)

-- Reading back the path of a directory.
pub walk-show : (st : List Str) → Normal true st → walk true [] (show st) ≡ st
unfolding split norm_step str_eq
walk-show [] h = refl
walk-show (s ∷ st) h = (Shows-render true false (s ∷ st) h (reverse-ne-nil s st)).walked

cd-join :
    (st parts : List Str)
    → All Seg parts
    → cd st (if is_empty parts then [] else join slash parts) ≡ foldl (norm_step true) st parts
cd-join st [] h = cd-nil st
cd-join st (s ∷ parts) h = rw (
  (join-IsInner (s ∷ parts) (cc) h).first,
  split-join slash (s ∷ parts) (cc) (All-Seg-Free (s ∷ parts) h),
)

common-le : (a b : List Str) → common a b ≤ length a
unfolding common
common-le (x ∷ a) (y ∷ b) = ground (arith, common-le a b)
common-le _ _ = omega arith

take-common : (a b : List Str) → take (common a b) a ≡ take (common a b) b
unfolding common
take-common (x ∷ a) (y ∷ b) = elim (Bool-cases (str_eq x y)) [
  | inl e ↦ rw e (ap₂ ◌∷◌ ((str_eq_iff x y).0 e) (take-common a b))
  | inr e ↦ rw e
]
take-common [] b = refl
take-common (_ ∷ _) [] = refl

length-reverse : (xs : List Str) → length (reverse xs) ≡ length xs
length-reverse [] = refl
length-reverse (x ∷ xs) = rw (reverse-cons, length-append, length-reverse xs) (omega arith)

drop-reverse :
    (k : ℕ) (xs : List Str)
    → k ≤ length xs
    → drop (length xs - k) (reverse xs) ≡ reverse (take k xs)
drop-reverse k xs h =
    let n : length xs - k ≡ length (reverse (drop k xs)) = rw (length-reverse, length-drop) in
    rw n (ap (drop (length (reverse (drop k xs)))) halves ∙ drop-append (reverse (drop k xs)) _)
  where
    halves : reverse xs ≡ reverse (drop k xs) ++ reverse (take k xs)
    halves = ap reverse (sym (take-append-drop k xs)) ∙ reverse-append (take k xs) (drop k xs)

-- From the directory with segments `a`, the common prefix kept, to the one with segments `b`.
climb :
    (a b : List Str)
    → Normal true (reverse a)
    → Normal true (reverse b)
    → foldl
        (norm_step true)
        (reverse a)
        (replicate (length a - common a b) up ++ drop (common a b) b)
      ≡ reverse b
climb a b ha hb =
    let k = common a b in
    rw (foldl-append, ups-drop _ (reverse a) ha, drop-reverse k a (common-le a b), take-common a b)
      (pushes (drop k b) (reverse (take k b)) (rw (← whole) hb) ∙ sym whole)
  where
    whole : reverse b ≡ reverse (drop (common a b) b) ++ reverse (take (common a b) b)
    whole =
        ap reverse (sym (take-append-drop (common a b) b))
        ∙ reverse-append (take (common a b) b) (drop (common a b) b)

-- The directory that one argument names.
abbrev target : Str → Str → List Str
target cwd p = cd (walk true [] cwd) p

target-Normal : (cwd p : Str) → Normal true (target cwd p)
target-Normal cwd p = cd-Normal (walk true [] cwd) p (walk-Normal true [] cwd tt)

norm_parts-resolve :
    (cwd p : Str) → norm_parts (split slash (resolve cwd (p ∷ []))) true ≡ reverse (target cwd p)
unfolding norm_parts
norm_parts-resolve cwd p =
    rw (resolve-cd cwd (p ∷ [])) (ap reverse (walk-show (target cwd p) (target-Normal cwd p)))

abbrev result : List Str → List Str → List Str
result a b = replicate (length a - common a b) up ++ drop (common a b) b

relative-result :
    (cwd from to : Str)
    → let r = result (reverse (target cwd from)) (reverse (target cwd to)) in
      relative cwd from to ≡ (if is_empty r then [] else join slash r)
unfolding relative
relative-result cwd from to = rw (norm_parts-resolve cwd from, norm_parts-resolve cwd to)

All-result : (a b : List Str) → All Seg b → All Seg (result a b)
All-result a b h =
    All-append Seg (replicate (length a - common a b) up) (drop (common a b) b) (All-replicate-up _)
      (All-drop (common a b) b h)

cd-relative : (cwd from to : Str) → cd (target cwd from) (relative cwd from to) ≡ target cwd to
cd-relative cwd from to = rw (relative-result cwd from to) (
    cd-join f (result (reverse f) (reverse t))
      (All-result (reverse f) (reverse t) (Normal-All true t t-Normal))
    ∙ subst (λ st. foldl (norm_step true) st (result (reverse f) (reverse t)) ≡ reverse (reverse t))
        (reverse-reverse f)
        (climb (reverse f) (reverse t) (rw reverse-reverse (target-Normal cwd from))
          (rw reverse-reverse t-Normal))
    ∙ reverse-reverse t)
  where
    f : List Str
    f = target cwd from

    t : List Str
    t = target cwd to

    t-Normal : Normal true t
    t-Normal = target-Normal cwd to

-- Resolving `from` and then the relative path from `from` to `to` gives what resolving `to` gives, for
-- all paths and every working directory.
pub resolve-relative :
    (cwd from to : Str) → resolve cwd (from ∷ relative cwd from to ∷ []) ≡ resolve cwd (to ∷ [])
resolve-relative cwd from to =
    resolve-cd cwd (from ∷ relative cwd from to ∷ [])
    ∙ ap show (cd-relative cwd from to)
    ∙ sym (resolve-cd cwd (to ∷ []))
