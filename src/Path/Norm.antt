-- ===== src/Path/Norm.antt =====
-- The stack that `_normParts` builds: what it may hold, and what it does with a split string.
use jaseci.Prelude.{
  Bool, true, false, not, List, [], ◌∷◌, ◌++◌, foldl, reverse, ◌≡◌, ◌≢◌, refl, ◌∙◌, arith,
  if◌then◌else◌, Bool-cases, inl, inr, All, Str, Free, codes, str_eq, str_eq_iff, split,
  split-append, split-All-Free, reverse-cons, foldl-append,
}
use jaseci.Path.{slash, up, norm_up, norm_step}

-- A segment that survives normalisation.
abbrev pub Seg : Str → Type 0
Seg s = Free slash s × (s ≢ []) × (s ≢ codes ".")

-- Below a ".." there is nothing, or another "..".
abbrev pub HeadUp : List Str → Type 0
HeadUp [] = Unit
HeadUp (t ∷ _) = t ≡ up

-- What may stand on top of a stack.
pub record Fits (is_abs : Bool) (top : Str) (rest : List Str) : Type 0 where
  pub seg : Seg top
  pub relative : top ≡ up → is_abs ≡ false
  pub bottom : top ≡ up → HeadUp rest

-- A normalised stack: only proper segments; ".." at the bottom only, and never in an absolute path.
abbrev pub Normal : Bool → List Str → Type 0
Normal is_abs [] = Unit
Normal is_abs (top ∷ rest) = Fits is_abs top rest × Normal is_abs rest

-- The stack after the pieces of a string.
abbrev pub walk : Bool → List Str → Str → List Str
walk is_abs st p = foldl (norm_step is_abs) st (split slash p)

up-Seg : Seg up
up-Seg = (omega arith, (λ e. cc), (λ e. cc))

push-Normal :
    (is_abs : Bool) (top : Str) (st : List Str)
    → top ≡ up
    → Normal is_abs (top ∷ st)
    → Normal is_abs (if not is_abs then up ∷ top ∷ st else top ∷ st)
push-Normal true top st e k = k
push-Normal false top st e k = (record { seg = up-Seg; relative = λ _. refl; bottom = λ _. e }, k)

norm_up-Normal :
    (is_abs : Bool) (st : List Str) → Normal is_abs st → Normal is_abs (norm_up is_abs st)
unfolding norm_up
norm_up-Normal true [] h = tt
norm_up-Normal false [] h = (record { seg = up-Seg; relative = λ _. refl; bottom = λ _. tt }, tt)
norm_up-Normal is_abs (top ∷ st) h = elim (Bool-cases (str_eq top up)) [
  | inr e ↦ rw e h.1
  | inl e ↦ rw e (push-Normal is_abs top st ((str_eq_iff top up).0 e) h)
]

ne→str_eq : (a b : Str) → a ≢ b → str_eq a b ≡ false
ne→str_eq a b h = ground (arith, str_eq_iff a b)

norm_step-Normal :
    (is_abs : Bool) (st : List Str) (seg : Str)
    → Free slash seg
    → Normal is_abs st
    → Normal is_abs (norm_step is_abs st seg)
unfolding norm_step
norm_step-Normal is_abs st seg f h = elim (Bool-cases (str_eq seg [])) [
  | inl e ↦ rw e h
  | inr e ↦ elim (Bool-cases (str_eq seg (codes "."))) [
    | inl e' ↦ rw (e, e') h
    | inr e' ↦ elim (Bool-cases (str_eq seg up)) [
      | inl u ↦ rw (e, e', u) (norm_up-Normal is_abs st h)
      | inr u ↦
          rw (e, e', u)
            (
              record {
                seg = (f, ne [] e, ne (codes ".") e');
                relative = λ p. absurd (ne up u p);
                bottom = λ p. absurd (ne up u p);
              },
              h,
            )
    ]
  ]
]
  where
    ne : (b : Str) → str_eq seg b ≡ false → seg ≢ b
    ne b e p = cc (e, (str_eq_iff seg b).1 p)

norm_steps-Normal :
    (is_abs : Bool) (pieces st : List Str)
    → All (Free slash) pieces
    → Normal is_abs st
    → Normal is_abs (foldl (norm_step is_abs) st pieces)
norm_steps-Normal is_abs [] st f h = h
norm_steps-Normal is_abs (seg ∷ pieces) st f h =
    norm_steps-Normal is_abs pieces _ f.1 (norm_step-Normal is_abs st seg f.0 h)

pub walk-Normal :
    (is_abs : Bool) (st : List Str) (p : Str) → Normal is_abs st → Normal is_abs (walk is_abs st p)
walk-Normal is_abs st p h = norm_steps-Normal is_abs (split slash p) st (split-All-Free slash p) h

norm_up-HeadUp :
    (is_abs : Bool) (st : List Str) → is_abs ≡ false → HeadUp st → norm_up is_abs st ≡ up ∷ st
unfolding norm_up
norm_up-HeadUp is_abs [] e h = rw e
norm_up-HeadUp is_abs (t ∷ st) e h = rw (e, (str_eq_iff t up).1 h)

-- A segment that fits is pushed.
pub norm_step-Fits :
    (is_abs : Bool) (top : Str) (st : List Str)
    → Fits is_abs top st
    → norm_step is_abs st top ≡ top ∷ st
unfolding norm_step
norm_step-Fits is_abs top st h =
    rw (ne→str_eq top [] h.seg.1, ne→str_eq top (codes ".") h.seg.2)
      (elim (Bool-cases (str_eq top up)) [
        | inr e ↦ rw e
        | inl e ↦
            let u : top ≡ up = (str_eq_iff top up).0 e in
            rw e (norm_up-HeadUp is_abs st (h.relative u) (h.bottom u) ∙ rw u)
      ])

-- A normalised stack is rebuilt from its segments.
pub norm_steps-reverse :
    (is_abs : Bool) (st : List Str)
    → Normal is_abs st
    → foldl (norm_step is_abs) [] (reverse st) ≡ st
norm_steps-reverse is_abs [] h = refl
norm_steps-reverse is_abs (top ∷ st) h =
    rw (reverse-cons, foldl-append, norm_steps-reverse is_abs st h.1)
      (norm_step-Fits is_abs top st h.0)

-- Walking along `a/b` is walking along `a`, then along `b`.
pub walk-append :
    (is_abs : Bool) (st : List Str) (a b : Str)
    → walk is_abs st (a ++ slash ∷ b) ≡ walk is_abs (walk is_abs st a) b
walk-append is_abs st a b = rw (split-append, foldl-append)

pub walk-nil : (is_abs : Bool) (st : List Str) → walk is_abs st [] ≡ st
unfolding split norm_step str_eq
walk-nil is_abs st = refl
