-- ===== src/Urls/Segments.antt =====
-- `_normalizePath` of url.js leaves no dot segments.
use jaseci.Prelude.{
  ℕ, false, List, [], ◌∷◌, ◌++◌, append-nil, append_assoc, ltb, if_both, Str, codes, str_eq, Free,
  All, All-append, length, split, split-All-Free, split-join, join, join-nil, join-split, ◌≡◌, ◌≢◌,
  refl, ap, sym, subst, ◌∙◌, Bool-cases, inl, inr, ne→==,
}
use jaseci.Urls.{drop_last, put_segment, put_segments, absolute, normalize_path}

-- A segment that is neither one dot nor two.
abbrev pub IsKept : Str → Type 0
IsKept seg = (str_eq seg (codes ".") ≡ false) × (str_eq seg (codes "..") ≡ false)

-- A path that starts with a slash and has no dot segments.
abbrev pub IsResolved : Str → Type 0
IsResolved [] = ⊥
IsResolved (c ∷ s) = (c ≡ b'/') × All IsKept (split b'/' (c ∷ s))

abbrev IsSegment : Str → Type 0
IsSegment seg = IsKept seg × Free b'/' seg

drop_last-All : (P : Str → Type 0) (out : List Str) → All P out → All P (drop_last out)
unfolding drop_last
drop_last-All P [] h = tt
drop_last-All P (x ∷ []) h = tt
drop_last-All P (x ∷ y ∷ out) h = (h.0, drop_last-All P (y ∷ out) h.1)

put_segment-All :
    (out : List Str) (seg : Str)
    → All IsSegment out
    → Free b'/' seg
    → All IsSegment (put_segment out seg)
unfolding put_segment
put_segment-All out seg h free = elim (Bool-cases (str_eq seg (codes "."))) [
  | inl e ↦ rw e h
  | inr e ↦ elim (Bool-cases (str_eq seg (codes ".."))) [
    | inl f ↦
        rw (e, f)
          (if_both (All IsSegment) (ltb 1 (length out)) (drop_last out) out
            (drop_last-All IsSegment out h) h)
    | inr f ↦ rw (e, f) (All-append IsSegment out (seg ∷ []) h (((e, f), free), tt))
  ]
]

put_segments-All :
    (parts out : List Str)
    → All IsSegment out
    → All (Free b'/') parts
    → All IsSegment (put_segments out parts)
unfolding put_segments
put_segments-All [] out h free = h
put_segments-All (seg ∷ parts) out h free =
    put_segments-All parts (put_segment out seg) (put_segment-All out seg h free.0) free.1

put_segments_all : (parts out : List Str) → All IsKept parts → put_segments out parts ≡ out ++ parts
unfolding put_segments
put_segments_all [] out h = sym (append-nil out)
put_segments_all (seg ∷ parts) out h =
    ap (λ (o : List Str). put_segments o parts) pushed
    ∙ put_segments_all parts (out ++ seg ∷ []) h.1
    ∙ append_assoc out (seg ∷ []) parts
  where
    pushed : put_segment out seg ≡ out ++ seg ∷ []
    pushed = unfold put_segment in rw (h.0.0, h.0.1) refl

-- On a resolved path the loop pushes every segment.
normalize_path-split :
    (s : Str) → All IsKept (split b'/' (b'/' ∷ s)) → normalize_path (b'/' ∷ s) ≡ b'/' ∷ s
unfolding normalize_path
normalize_path-split s h =
    ap (λ (p : List Str). absolute (join b'/' p)) (put_segments_all (split b'/' (b'/' ∷ s)) [] h)
    ∙ ap absolute (join-split b'/' (b'/' ∷ s))
    ∙ (unfold absolute in refl)

normalize_path_fixed : (path : Str) → IsResolved path → normalize_path path ≡ path
normalize_path_fixed [] h = absurd h
normalize_path_fixed (c ∷ s) (e, h) =
    let slash = ap (λ (x : ℕ). x ∷ s) e in
    ap normalize_path slash
    ∙ normalize_path-split s (subst (λ (x : Str). All IsKept (split b'/' x)) slash h)
    ∙ sym slash

IsSegment-IsKept : (parts : List Str) → All IsSegment parts → All IsKept parts
IsSegment-IsKept [] h = tt
IsSegment-IsKept (seg ∷ parts) h = (h.0.0, IsSegment-IsKept parts h.1)

IsSegment-Free : (parts : List Str) → All IsSegment parts → All (Free b'/') parts
IsSegment-Free [] h = tt
IsSegment-Free (seg ∷ parts) h = (h.0.1, IsSegment-Free parts h.1)

nil-IsSegment : IsSegment []
nil-IsSegment = (unfold str_eq in (refl, refl), tt)

join-IsResolved :
    (seg : Str) (parts : List Str)
    → All IsSegment (seg ∷ parts)
    → IsResolved (b'/' ∷ join b'/' (seg ∷ parts))
join-IsResolved seg parts h =
    let all : All IsSegment ([] ∷ seg ∷ parts) = (nil-IsSegment, h) in
    let text = join-nil b'/' (seg ∷ parts) (λ e. cc) in
    (
      refl,
      subst (All IsKept)
          (sym
              (split-join b'/' ([] ∷ seg ∷ parts) (λ e. cc) (IsSegment-Free ([] ∷ seg ∷ parts) all))
            ∙ ap (split b'/') text)
          (IsSegment-IsKept ([] ∷ seg ∷ parts) all),
    )

absolute-cons : (c : ℕ) (s : Str) → c ≢ b'/' → absolute (c ∷ s) ≡ b'/' ∷ c ∷ s
unfolding absolute
absolute-cons c s h = rw (ne→== c b'/' h) refl

absolute-IsResolved :
    (parts : List Str) → All IsSegment parts → IsResolved (absolute (join b'/' parts))
unfolding absolute join
absolute-IsResolved [] h = join-IsResolved [] [] (nil-IsSegment, tt)
absolute-IsResolved ([] ∷ []) h = join-IsResolved [] [] h
absolute-IsResolved ([] ∷ t ∷ parts) h = join-IsResolved t parts h.1
absolute-IsResolved ((c ∷ s) ∷ []) h =
    subst IsResolved (sym (absolute-cons c s h.0.1.0)) (join-IsResolved (c ∷ s) [] h)
absolute-IsResolved ((c ∷ s) ∷ t ∷ parts) h =
    subst IsResolved (sym (absolute-cons c (s ++ b'/' ∷ join b'/' (t ∷ parts)) h.0.1.0))
      (join-IsResolved (c ∷ s) (t ∷ parts) h)

-- The result of `_normalizePath` starts with a slash, and none of its segments is one dot or two, on any
-- path whatever.
pub normalize_path-IsResolved : (path : Str) → IsResolved (normalize_path path)
unfolding normalize_path
normalize_path-IsResolved path =
    absolute-IsResolved (put_segments [] (split b'/' path))
      (put_segments-All (split b'/' path) [] tt (split-All-Free b'/' path))

-- `_normalizePath` changes nothing in a path that it returned.
pub normalize_path-normalize_path :
    (path : Str) → normalize_path (normalize_path path) ≡ normalize_path path
normalize_path-normalize_path path =
    normalize_path_fixed (normalize_path path) (normalize_path-IsResolved path)
