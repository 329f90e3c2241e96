-- ===== src/Path/Dirname.antt =====
-- `dirname` and `basename` cut a path in two, and `join` puts it together again.
use jaseci.Prelude.{
  ℕ, zero, suc, ◌-◌, ◌≤◌, ◌<◌, true, false, [], ◌∷◌, ◌++◌, append_assoc, ◌≡◌, ◌≢◌, refl, ap, sym,
  ◌∙◌, arith, ◌==◌, ltb, ltb→lt, ltb→le, lt→ltb, ne→==, length-append, if◌then◌else◌, Bool-cases,
  inl, inr, Str, codes, length, take, drop, take-length, length-take, last_index_of,
  last_index_of-Free, last_index_of-splits, Free, split, subst, length-cons-ne-zero,
  length-cons-pos, none, str_eq, ==→eq,
}
use jaseci.Path.{
  slash, dot, at, normalize, strip_end, strip_trailing, join_step, join_paths, dirname, basename,
  norm_step, norm_parts,
}
use jaseci.Path.Render.{at-Free, at_last-append}
use jaseci.Path.Norm.{walk-append}
use jaseci.Path.Slashes.{Alike, normalize-Alike, double_slash-Alike}

record Strips (p : Str) (e end : ℕ) : Type 0 where
  below : end ≤ e
  some : 0 < e → 0 < end
  last : 1 < end → at p (end - 1) slash ≡ false

strip_end-Strips : (p : Str) (e : ℕ) → Strips p e (strip_end p e)
unfolding strip_end
strip_end-Strips p zero = record {
  below = omega arith;
  some = λ h. h;
  last = λ h. absurd (omega arith);
}
strip_end-Strips p (suc e) =
    let ih = strip_end-Strips p e in
    let pred : suc e - 1 ≡ e = omega arith in
    elim (Bool-cases (ltb 1 (suc e))) [
      | inr s ↦ rw s (record {
        below = omega arith;
        some = λ h. h;
        last = λ h. absurd (omega (arith, ltb→le 1 (suc e) s));
      })
      | inl s ↦ elim (Bool-cases (at p e slash)) [
        | inr a ↦ rw (s, a) (record { below = omega arith; some = λ h. h; last = λ _. rw pred a })
        | inl a ↦
            rw (s, a)
              (record {
                below = omega (arith, ih.below);
                some = λ _. ih.some (omega (arith, ltb→lt 1 (suc e) s));
                last = ih.last;
              })
      ]
    ]

at-take : (p : Str) (n i c : ℕ) → i < n → at (take n p) i c ≡ at p i c
unfolding at
at-take p zero i c h = absurd (omega arith)
at-take [] (suc n) i c h = refl
at-take (x ∷ p) (suc n) zero c h = refl
at-take (x ∷ p) (suc n) (suc i) c h = at-take p n i c (omega arith)

-- What is left of a path that is not empty.
record Stripped (s : Str) : Type 0 where
  nonempty : s ≢ []
  last : 1 < length s → at s (length s - 1) slash ≡ false

strip_trailing-take : (p : Str) → strip_trailing p ≡ take (strip_end p (length p)) p
unfolding strip_trailing
strip_trailing-take p = elim (Bool-cases (strip_end p (length p) == length p)) [
  | inl e ↦ rw e (rw (==→eq _ _ e) (sym (take-length p)))
  | inr e ↦ rw e
]

strip_trailing-Stripped : (p : Str) → p ≢ [] → Stripped (strip_trailing p)
strip_trailing-Stripped [] h = absurd (h refl)
strip_trailing-Stripped (x ∷ p) h = rw strip_trailing-take (record {
  nonempty = λ e. absurd (omega (arith, len, st.some (omega arith), ap length e));
  last = λ k. rw len (
      at-take (x ∷ p) end (end - 1) slash (omega (arith, st.some (omega arith)))
      ∙ st.last (omega (arith, len)));
})
  where
    end : ℕ
    end = strip_end (x ∷ p) (length (x ∷ p))

    st : Strips (x ∷ p) (length (x ∷ p)) end
    st = strip_end-Strips (x ∷ p) (length (x ∷ p))

    len : length (take end (x ∷ p)) ≡ end
    len = length-take end (x ∷ p) st.below

join_step-first : (x : ℕ) (d : Str) → join_step [] (x ∷ d) ≡ x ∷ d
unfolding join_step
join_step-first x d = rw length-cons-pos

join_step-next :
    (x : ℕ) (d : Str) (y : ℕ) (b : Str) → join_step (x ∷ d) (y ∷ b) ≡ x ∷ (d ++ slash ∷ y ∷ b)
unfolding join_step
join_step-next x d y b = rw (length-cons-pos x d, length-cons-pos y b, append_assoc)

join_step-nil : (d : Str) → join_step d [] ≡ d
unfolding join_step
join_step-nil d = refl

-- `join` of a directory and a base name.
join_paths-pair :
    (x : ℕ) (d : Str) (b : Str)
    → join_paths ((x ∷ d) ∷ b ∷ [])
      ≡ normalize (if length b == 0 then x ∷ d else x ∷ (d ++ slash ∷ b))
unfolding join_paths
join_paths-pair x d [] = rw (join_step-first x d, join_step-nil, length-cons-ne-zero x d)
join_paths-pair x d (y ∷ b) =
    rw (join_step-first x d, join_step-next x d y b, length-cons-ne-zero x, length-cons-ne-zero y b)

abbrev dir_at : ℕ → Str → Str
dir_at zero s = codes "."
dir_at (suc zero) s = codes "/"
dir_at (suc (suc i)) s = take (suc i) s

abbrev base_at : ℕ → Str → Str
base_at zero s = s
base_at (suc i) s = drop (suc i) s

dot_slash-Alike : (s : Str) → s ≢ [] → Free slash s → Alike (codes "./" ++ s) s
unfolding at split norm_step str_eq
dot_slash-Alike s ne f = record {
  nonempty_left = (cc);
  nonempty_right = ne;
  first = sym (at-Free slash s 0 f);
  last = at_last-append slash (codes "./") s ne;
  walked = λ is_abs. walk-append is_abs [] (codes ".") s;
}

root_pair : (b : Str) → join_paths (codes "/" ∷ b ∷ []) ≡ normalize (slash ∷ b)
root_pair [] = join_paths-pair slash [] []
root_pair (y ∷ b) =
    join_paths-pair slash [] (y ∷ b)
    ∙ rw (length-cons-ne-zero y b) (normalize-Alike _ _ (double_slash-Alike [] (y ∷ b)))

inner_pair :
    (x : ℕ) (d b : Str)
    → Stripped (x ∷ (d ++ slash ∷ b))
    → join_paths ((x ∷ d) ∷ b ∷ []) ≡ normalize (x ∷ (d ++ slash ∷ b))
unfolding at
inner_pair x d [] t = absurd (
    cc (
      t.last (omega (arith, length-append d (codes "/"))),
      at_last-append slash (x ∷ d) (codes "/") (cc),
    ))
inner_pair x d (y ∷ b) t = join_paths-pair x d (y ∷ b) ∙ rw (length-cons-ne-zero y b)

pair_at :
    (l : ℕ) (s : Str)
    → Stripped s
    → last_index_of s slash ≡ l
    → join_paths (dir_at l s ∷ base_at l s ∷ []) ≡ normalize s
pair_at zero [] t h = absurd (t.nonempty refl)
pair_at zero (x ∷ s) t h =
    join_paths-pair dot [] (x ∷ s)
    ∙ rw (length-cons-ne-zero x s) (
        normalize-Alike _ _
          (dot_slash-Alike (x ∷ s) t.nonempty (last_index_of-Free slash (x ∷ s) h)))
pair_at (suc zero) s t h =
    let (e, _) = last_index_of-splits slash s zero h in root_pair (drop 1 s) ∙ ap normalize (sym e)
pair_at (suc (suc i)) [] t h = absurd (t.nonempty refl)
pair_at (suc (suc i)) (x ∷ s) t h =
    let (e, _) = last_index_of-splits slash (x ∷ s) (suc i) h in
    inner_pair x (take i s) (drop (suc i) s) (subst Stripped e t) ∙ ap normalize (sym e)

dirname-dir_at :
    (x : ℕ) (p : Str) (l : ℕ)
    → last_index_of (strip_trailing (x ∷ p)) slash ≡ l
    → dirname (x ∷ p) ≡ dir_at l (strip_trailing (x ∷ p))
unfolding dirname
dirname-dir_at x p zero h = rw (length-cons-ne-zero x p, h)
dirname-dir_at x p (suc zero) h = rw (length-cons-ne-zero x p, h)
dirname-dir_at x p (suc (suc i)) h =
    let e : suc (suc i) - 1 ≡ suc i = omega arith in
    let n : (suc (suc i) == 0) ≡ false = ne→== _ _ (omega arith) in
    let m : (suc (suc i) == 1) ≡ false = ne→== _ _ (omega arith) in
    rw (length-cons-ne-zero x p, h, n, m, e)

basename-base_at :
    (x : ℕ) (p : Str) (l : ℕ)
    → last_index_of (strip_trailing (x ∷ p)) slash ≡ l
    → basename (x ∷ p) none ≡ base_at l (strip_trailing (x ∷ p))
unfolding basename
basename-base_at x p zero h = rw (length-cons-ne-zero x p, h)
basename-base_at x p (suc i) h =
    let e : ltb 0 (suc i) ≡ true = lt→ltb _ _ (omega arith) in rw (length-cons-ne-zero x p, h, e)

parts :
    (x : ℕ) (p : Str)
    → join_paths (dirname (x ∷ p) ∷ basename (x ∷ p) none ∷ []) ≡ normalize (strip_trailing (x ∷ p))
parts x p =
    let l = last_index_of (strip_trailing (x ∷ p)) slash in
    rw (dirname-dir_at x p l refl, basename-base_at x p l refl)
      (pair_at l (strip_trailing (x ∷ p)) (strip_trailing-Stripped (x ∷ p) (cc)) refl)

-- Joining what `dirname` and `basename` give leads back to the path without its trailing slashes.
pub join_paths-dirname-basename :
    (p : Str) → join_paths (dirname p ∷ basename p none ∷ []) ≡ normalize (strip_trailing p)
unfolding dirname basename strip_trailing strip_end join_paths join_step normalize norm_parts
    norm_step split str_eq at
join_paths-dirname-basename [] = refl
join_paths-dirname-basename (x ∷ p) = parts x p
