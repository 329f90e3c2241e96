-- ===== src/Path/Normalize.antt =====
-- `normalize`: its result is normalised, and normalising again changes nothing.
use jaseci.Prelude.{
  ℕ, ◌-◌, Bool, true, false, List, [], ◌∷◌, ◌++◌, reverse, ◌≡◌, ◌≢◌, refl, ◌∙◌, if◌then◌else◌, All,
  Str, Free, codes, length, join, length-cons-ne-zero, split, split-join, str_eq,
}
use jaseci.Path.{slash, at, normalize, norm_parts, norm_step, norm_up}
use jaseci.Path.Norm.{Seg, Normal, walk, walk-Normal, walk-append, walk-nil, norm_steps-reverse}
use jaseci.Path.Render.{
  render, reverse-ne-nil, IsInner, join-IsInner, Normal-All, at_last-append, at_last-cons,
}

-- A text that stands for the stack `st`, absolute or not, with a trailing slash or not.
pub record Shows (is_abs trailing : Bool) (st : List Str) (q : Str) : Type 0 where
  pub nonempty : q ≢ []
  pub first : at q 0 slash ≡ is_abs
  pub last : at q (length q - 1) slash ≡ trailing
  pub walked : walk is_abs [] q ≡ st

pub normalize-Shows :
    {is_abs trailing : Bool} {st : List Str} (q : Str)
    → Shows is_abs trailing st q
    → normalize q ≡ render is_abs trailing (reverse st)
unfolding normalize norm_parts
normalize-Shows [] h = absurd (h.nonempty refl)
normalize-Shows (x ∷ q) h = rw (length-cons-ne-zero x q, h.first, h.last, h.walked)

pub All-Seg-Free : (parts : List Str) → All Seg parts → All (Free slash) parts
All-Seg-Free [] h = tt
All-Seg-Free (s ∷ parts) h = (h.0.0, All-Seg-Free parts h.1)

walk-join :
    (is_abs : Bool) (st : List Str)
    → Normal is_abs st
    → reverse st ≢ []
    → walk is_abs [] (join slash (reverse st)) ≡ st
walk-join is_abs st normal ne =
    rw (split-join slash (reverse st) ne (All-Seg-Free _ (Normal-All is_abs st normal)))
      (norm_steps-reverse is_abs st normal)

-- What is written behind the leading slash, if there is one.
record Body (is_abs trailing : Bool) (st : List Str) (q : Str) : Type 0 where
  nonempty : q ≢ []
  first : at q 0 slash ≡ false
  last : at q (length q - 1) slash ≡ trailing
  walked : walk is_abs [] q ≡ st

pub at_first-append : (q s : Str) (c : ℕ) → q ≢ [] → at (q ++ s) 0 c ≡ at q 0 c
unfolding at
at_first-append [] s c h = absurd (h refl)
at_first-append (x ∷ q) s c h = refl

pub append-ne-nil : (q s : Str) → q ≢ [] → q ++ s ≢ []
append-ne-nil [] s h = absurd (h refl)
append-ne-nil (x ∷ q) s h = cc

module _ (is_abs : Bool) (st : List Str) (q : Str) (inner : IsInner q)
    (w : walk is_abs [] q ≡ st) where
  Body-closed : (trailing : Bool) → Body is_abs trailing st (if trailing then q ++ codes "/" else q)
  unfolding at
  Body-closed false = record {
    nonempty = inner.nonempty;
    first = inner.first;
    last = inner.last;
    walked = w;
  }
  Body-closed true = record {
    nonempty = append-ne-nil q (codes "/") inner.nonempty;
    first = at_first-append q (codes "/") slash inner.nonempty ∙ inner.first;
    last = at_last-append slash q (codes "/") (cc);
    walked = walk-append is_abs [] q [] ∙ walk-nil is_abs _ ∙ w;
  }

Shows-Body :
    (is_abs trailing : Bool) (st : List Str) (q : Str)
    → Body is_abs trailing st q
    → Shows is_abs trailing st (if is_abs then slash ∷ q else q)
unfolding at
Shows-Body false trailing st q b = record {
  nonempty = b.nonempty;
  first = b.first;
  last = b.last;
  walked = b.walked;
}
Shows-Body true trailing st q b = record {
  nonempty = (cc);
  first = refl;
  last = at_last-cons slash slash q b.nonempty ∙ b.last;
  walked = walk-append true [] [] q ∙ rw walk-nil b.walked;
}

render-ne-nil :
    (is_abs trailing : Bool) (parts : List Str)
    → parts ≢ []
    → render is_abs trailing parts ≡ (
        if is_abs
        then slash ∷ (if trailing then join slash parts ++ codes "/" else join slash parts)
        else (if trailing then join slash parts ++ codes "/" else join slash parts))
render-ne-nil is_abs trailing [] h = absurd (h refl)
render-ne-nil is_abs trailing (_ ∷ _) h = refl

pub Shows-render :
    (is_abs trailing : Bool) (st : List Str)
    → Normal is_abs st
    → reverse st ≢ []
    → Shows is_abs trailing st (render is_abs trailing (reverse st))
Shows-render is_abs trailing st normal ne = rw (render-ne-nil is_abs trailing (reverse st) ne) (
    Shows-Body is_abs trailing st _ (
      Body-closed is_abs st _ (join-IsInner (reverse st) ne (Normal-All is_abs st normal))
        (walk-join is_abs st normal ne) trailing))

-- Of a path with no segments.
normalize-render_nil :
    (is_abs trailing : Bool) → normalize (render is_abs trailing []) ≡ render is_abs trailing []
unfolding normalize norm_parts norm_step norm_up split at str_eq
normalize-render_nil true true = refl
normalize-render_nil true false = refl
normalize-render_nil false true = refl
normalize-render_nil false false = refl

pub normalize-render :
    (is_abs trailing : Bool) (st : List Str)
    → Normal is_abs st
    → normalize (render is_abs trailing (reverse st)) ≡ render is_abs trailing (reverse st)
normalize-render is_abs trailing [] h = normalize-render_nil is_abs trailing
normalize-render is_abs trailing (s ∷ st) h =
    normalize-Shows _ (Shows-render is_abs trailing (s ∷ st) h (reverse-ne-nil s st))

-- What `normalize` writes.
pub normalize-cons :
    (x : ℕ) (p : Str)
    → normalize (x ∷ p)
      ≡ render
          (at (x ∷ p) 0 slash)
          (at (x ∷ p) (length (x ∷ p) - 1) slash)
          (reverse (walk (at (x ∷ p) 0 slash) [] (x ∷ p)))
normalize-cons x p =
    normalize-Shows (x ∷ p) (record { nonempty = (cc); first = refl; last = refl; walked = refl })

-- Normalising twice gives what normalising once gives, for every path.
pub normalize-normalize : (p : Str) → normalize (normalize p) ≡ normalize p
unfolding normalize norm_parts norm_step norm_up split at str_eq join
normalize-normalize [] = refl
normalize-normalize (x ∷ p) =
    rw normalize-cons (normalize-render _ _ _ (walk-Normal (at (x ∷ p) 0 slash) [] (x ∷ p) tt))
