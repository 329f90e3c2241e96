-- ===== src/Path/Render.antt =====
-- How a list of segments is written, and what the tests on the first and the last character of
-- such a text find.
use jaseci.Prelude.{
  ℕ, zero, suc, ◌-◌, Bool, false, List, [], ◌∷◌, ◌++◌, reverse, ◌≡◌, ◌≢◌, refl, ◌∙◌, arith,
  if◌then◌else◌, All, Str, Free, codes, length, join, ne→==, All-append, reverse-cons,
}
use jaseci.Path.{slash, at, is_empty}
use jaseci.Path.Norm.{Seg, Normal}

-- The last lines of `normalize`, on the segments.
abbrev pub render : Bool → Bool → List Str → Str
render is_abs trailing parts =
    let joined = join slash parts in
    let closed = if trailing then joined ++ codes "/" else joined in
    if is_empty parts
    then (if is_abs then codes "/" else if trailing then codes "./" else codes ".")
    else if is_abs
    then slash ∷ closed
    else closed

module _ (c : ℕ) where
  pub at-Free : (s : Str) (i : ℕ) → Free c s → at s i c ≡ false
  unfolding at
  at-Free [] i h = refl
  at-Free (x ∷ s) zero h = ne→== x c h.0
  at-Free (x ∷ s) (suc i) h = at-Free s i h.1

  -- The last character of a text is that of its tail, unless the tail is empty.
  pub at_last-cons :
      (x : ℕ) (s : Str) → s ≢ [] → at (x ∷ s) (length (x ∷ s) - 1) c ≡ at s (length s - 1) c
  unfolding at
  at_last-cons x [] h = absurd (h refl)
  at_last-cons x (y ∷ s) h =
      let e : suc (suc (length s)) - 1 ≡ suc (length s) = omega arith in
      let e' : suc (length s) - 1 ≡ length s = omega arith in rw (e, e')

  pub at_last-append :
      (a s : Str) → s ≢ [] → at (a ++ s) (length (a ++ s) - 1) c ≡ at s (length s - 1) c
  at_last-append [] s h = refl
  at_last-append (x ∷ a) s h = at_last-cons x (a ++ s) (append-ne-nil a h) ∙ at_last-append a s h
    where
      append-ne-nil : (b : Str) → s ≢ [] → b ++ s ≢ []
      append-ne-nil [] h = h
      append-ne-nil (y ∷ b) h = cc

pub Normal-All : (is_abs : Bool) (st : List Str) → Normal is_abs st → All Seg (reverse st)
Normal-All is_abs [] h = tt
Normal-All is_abs (top ∷ st) h =
    rw reverse-cons
      (All-append Seg (reverse st) (top ∷ []) (Normal-All is_abs st h.1) (h.0.seg, tt))

-- A joined list of segments is not empty, and neither begins nor ends with a slash.
pub record IsInner (s : Str) : Type 0 where
  pub nonempty : s ≢ []
  pub first : at s 0 slash ≡ false
  pub last : at s (length s - 1) slash ≡ false

Seg-IsInner : (s : Str) → Seg s → IsInner s
Seg-IsInner s h = record {
  nonempty = h.1;
  first = at-Free slash s 0 h.0;
  last = at-Free slash s (length s - 1) h.0;
}

pub join-IsInner : (parts : List Str) → parts ≢ [] → All Seg parts → IsInner (join slash parts)
unfolding join at
join-IsInner [] h k = absurd (h refl)
join-IsInner (s ∷ []) h k = Seg-IsInner s k.0
join-IsInner ([] ∷ t ∷ parts) h k = absurd (k.0.1 refl)
join-IsInner ((x ∷ s) ∷ t ∷ parts) h k =
    let rest = join-IsInner (t ∷ parts) (cc) k.1 in
    record {
      nonempty = (cc);
      first = (Seg-IsInner (x ∷ s) k.0).first;
      last =
          at_last-append slash (x ∷ s) _ (cc)
          ∙ at_last-cons slash slash _ rest.nonempty
          ∙ rest.last;
    }

pub reverse-ne-nil : (s : Str) (st : List Str) → reverse (s ∷ st) ≢ []
reverse-ne-nil s st e = append-cons-ne-nil (reverse st) (rw reverse-cons at e)
  where
    append-cons-ne-nil : (a : List Str) → a ++ s ∷ [] ≢ []
    append-cons-ne-nil [] = cc
    append-cons-ne-nil (_ ∷ _) = cc
