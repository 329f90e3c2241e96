-- ===== src/Path/Slashes.antt =====
-- When two texts have the same normal form.
use jaseci.Prelude.{
  ◌-◌, Bool, true, [], ◌∷◌, ◌++◌, ◌≡◌, ◌≢◌, refl, ap, sym, ◌∙◌, Str, codes, length, ==→eq,
}
use jaseci.Path.{slash, at, normalize}
use jaseci.Path.Norm.{walk, walk-append, walk-nil}
use jaseci.Path.Render.{at_last-append, at_last-cons}
use jaseci.Path.Normalize.{normalize-Shows}

-- The same first and last characters, as far as slashes go, and the same stack.
pub record Alike (p q : Str) : Type 0 where
  pub nonempty_left : p ≢ []
  pub nonempty_right : q ≢ []
  pub first : at p 0 slash ≡ at q 0 slash
  pub last : at p (length p - 1) slash ≡ at q (length q - 1) slash
  pub walked : (is_abs : Bool) → walk is_abs [] p ≡ walk is_abs [] q

pub normalize-Alike : (p q : Str) → Alike p q → normalize p ≡ normalize q
normalize-Alike p q h =
    normalize-Shows p (record {
      nonempty = h.nonempty_left;
      first = h.first;
      last = h.last;
      walked = h.walked (at q 0 slash);
    })
    ∙ sym (
        normalize-Shows q
          (record { nonempty = h.nonempty_right; first = refl; last = refl; walked = refl }))

-- A doubled slash counts as one.
pub double_slash-Alike : (a b : Str) → Alike (a ++ slash ∷ slash ∷ b) (a ++ slash ∷ b)
unfolding at
double_slash-Alike a b = record {
  nonempty_left = cons-ne-nil a (slash ∷ b);
  nonempty_right = cons-ne-nil a b;
  first = same a;
  last =
      at_last-append slash a (slash ∷ slash ∷ b) (cc)
      ∙ at_last-cons slash slash (slash ∷ b) (cc)
      ∙ sym (at_last-append slash a (slash ∷ b) (cc));
  walked = λ is_abs.
      walk-append is_abs [] a (slash ∷ b)
      ∙ walk-append is_abs (walk is_abs [] a) [] b
      ∙ ap (λ st. walk is_abs st b) (walk-nil is_abs _)
      ∙ sym (walk-append is_abs [] a b);
}
  where
    cons-ne-nil : (a s : Str) → a ++ slash ∷ s ≢ []
    cons-ne-nil [] s = cc
    cons-ne-nil (_ ∷ _) s = cc

    same : (a : Str) → at (a ++ slash ∷ slash ∷ b) 0 slash ≡ at (a ++ slash ∷ b) 0 slash
    same [] = refl
    same (_ ∷ _) = refl

-- A text whose last character is a slash.
pub ends_in_slash : (a : Str) → at a (length a - 1) slash ≡ true → (b : Str) × (a ≡ b ++ codes "/")
unfolding at
ends_in_slash [] h = cc
ends_in_slash (x ∷ []) h = ([], ap (λ c. c ∷ []) (==→eq x slash h))
ends_in_slash (x ∷ y ∷ a) h =
    let (b, e) = ends_in_slash (y ∷ a) (sym (at_last-cons slash x (y ∷ a) (cc)) ∙ h) in
    (x ∷ b, ap (x ∷◌) e)
