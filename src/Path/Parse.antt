-- ===== src/Path/Parse.antt =====
-- `parse` takes a path apart, and `format` puts it together again.
use jaseci.Prelude.{
  ℕ, zero, suc, ◌+◌, ◌-◌, Bool, true, false, ◌&&◌, [], ◌∷◌, ◌++◌, append_assoc, append-nil, ◌≡◌,
  refl, sym, arith, ◌==◌, ltb, if◌then◌else◌, Bool-cases, inl, inr, Str, codes, length, take, drop,
  take-append-drop, last_index_of, last_index_of-Free, last_index_of-splits, length-cons-ne-zero,
  length-cons-pos, lt→ltb, subst,
}
use jaseci.Path.{slash, at, normalize, scan_last, PathObject, parse, format}
use jaseci.Path.Render.{at-Free}
use jaseci.Path.Slashes.{normalize-Alike, double_slash-Alike, ends_in_slash}

-- The scanning loops find the last occurrence.
scan_last_lem :
    (c : ℕ) (s : Str) (i last : ℕ)
    → scan_last c s i last ≡ (if last_index_of s c == 0 then last else i + last_index_of s c)
unfolding scan_last last_index_of
scan_last_lem c [] i last = refl
scan_last_lem c (x ∷ s) i last =
    ground (arith, scan_last_lem c s (i + 1) (if x == c then i + 1 else last))

pub scan_last-zero : (c : ℕ) (s : Str) → scan_last c s 0 0 ≡ last_index_of s c
scan_last-zero c s = ground (arith, scan_last_lem c s 0 0)

cut : (d : Bool) (n : ℕ) (b : Str) → (if d then take n b else b) ++ (if d then drop n b else []) ≡ b
cut true n b = take-append-drop n b
cut false n b = append-nil b

-- The base name is the name followed by the extension.
name-ext : (p : Str) → (parse p).name ++ (parse p).ext ≡ (parse p).base
unfolding parse
name-ext p = cut _ _ _

-- What `format` writes for an object whose base name is its name and its extension.
written : Str → Str → Str → Str
written root dir base =
    if ltb 0 (length dir)
    then (if at dir (length dir - 1) slash then dir ++ base else dir ++ (slash ∷ base))
    else root ++ base

format-written :
    (obj : PathObject)
    → obj.name ++ obj.ext ≡ obj.base
    → format obj ≡ written obj.root obj.dir obj.base
unfolding format written
format-written obj h = elim (Bool-cases (length obj.base == 0)) [ inl e ↦ rw (e, h) | inr e ↦ rw e ]

parse-zero :
    (p : Str)
    → last_index_of p slash ≡ 0
    → ((parse p).root ≡ []) × ((parse p).dir ≡ []) × ((parse p).base ≡ p)
unfolding parse
parse-zero p h =
    rw (scan_last-zero slash p, h, at-Free slash p 0 (last_index_of-Free slash p h))
      (refl, refl, refl)

-- The directory that `parse` gives for what stands before the last slash.
abbrev dir_of : Str → Str → Str
dir_of root head = if length head == 0 && ltb 0 (length root) then root else head

parse-suc :
    (p : Str) (i : ℕ)
    → last_index_of p slash ≡ suc i
    → ((parse p).dir ≡ dir_of (parse p).root (take i p)) × ((parse p).base ≡ drop (suc i) p)
unfolding parse
parse-suc p i h =
    let e : suc i - 1 ≡ i = omega arith in
    let d : ltb 0 (suc i) ≡ true = lt→ltb _ _ (omega arith) in
    rw (scan_last-zero slash p, h, e, d) (refl, refl)

written-cons :
    (root : Str) (x : ℕ) (a b : Str)
    → normalize (written root (dir_of root (x ∷ a)) b) ≡ normalize ((x ∷ a) ++ slash ∷ b)
unfolding written
written-cons root x a b = elim (Bool-cases (at (x ∷ a) (length (x ∷ a) - 1) slash)) [
  | inr e ↦ rw (length-cons-ne-zero x a, length-cons-pos x a, e)
  | inl e ↦
      rw (length-cons-ne-zero x a, length-cons-pos x a, e)
        (double (x ∷ a) (ends_in_slash (x ∷ a) e))
]
  where
    double :
        (s : Str)
        → (c : Str) × (s ≡ c ++ codes "/")
        → normalize (s ++ b) ≡ normalize (s ++ slash ∷ b)
    double s (c, e) =
        rw (e, append_assoc, append_assoc) (sym (normalize-Alike _ _ (double_slash-Alike c b)))

abbrev root_of : Str → Str
root_of p = if at p 0 slash then codes "/" else []

written-splits :
    (a b : Str)
    → let p = a ++ slash ∷ b in
      normalize (written (root_of p) (dir_of (root_of p) a) b) ≡ normalize p
unfolding written at
written-splits [] b = refl
written-splits (x ∷ a) b = written-cons (root_of (x ∷ (a ++ slash ∷ b))) x a b

parse-root : (p : Str) → (parse p).root ≡ root_of p
unfolding parse
parse-root p = refl

-- What `format` makes of the result of `parse` normalises to what the path normalises to.
pub normalize-format-parse : (p : Str) → normalize (format (parse p)) ≡ normalize p
normalize-format-parse p =
    rw (format-written (parse p) (name-ext p)) (at_slash (last_index_of p slash) refl)
  where
    at_slash :
        (l : ℕ)
        → last_index_of p slash ≡ l
        → normalize (written (parse p).root (parse p).dir (parse p).base) ≡ normalize p
    at_slash zero h = let (r, d, b) = parse-zero p h in rw (r, d, b) (unfold written in refl)
    at_slash (suc i) h =
        let (d, b) = parse-suc p i h in
        let (e, _) = last_index_of-splits slash p i h in
        rw (d, b, parse-root p)
          (subst
            (λ q.
              normalize (written (root_of q) (dir_of (root_of q) (take i p)) (drop (suc i) p))
              ≡ normalize q)
            (sym e) (written-splits (take i p) (drop (suc i) p)))
