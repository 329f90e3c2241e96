-- ===== src/Querystring/Objects/Written.antt =====
-- `parse` of querystring.js reads every pair of a joined list of pairs.
use jaseci.Prelude.{
  ℕ, suc, ◌+◌, ◌<◌, ◌≤◌, false, ◌&&◌, List, [], ◌∷◌, ◌++◌, some, ltb, leb, ◌==◌, Str, length,
  length-append, join, split-join, Free, ◌≡◌, ◌⊎◌, refl, subst, ◌∙◌, arith, All, str_eq, codes,
}
use jaseci.Unicode.{utf16, Scalars}
use jaseci.Querystring.Objects.{Object, add, key_value, parse_pairs, parse, pair_text}
use jaseci.Querystring.Objects.Pairs.{pair_text-Free, key_value-pair_text}
use jaseci.Querystring.Objects.Groups.{add_all}

-- A string without lone surrogates.
abbrev pub IsText : Str → Type 0
IsText s = (cs : List ℕ) × Scalars cs × (s ≡ utf16 cs)

abbrev pub IsPair : Str × Str → Type 0
IsPair p = IsText p.0 × IsText p.1 × (str_eq p.0 (codes "__proto__") ≡ false)

abbrev pub written : Str × Str → Str
written p = pair_text b'=' p.0 p.1

abbrev pub written_all : List (Str × Str) → List Str
written_all [] = []
written_all (p ∷ pairs) = written p ∷ written_all pairs

written-Free : (p : Str × Str) → IsPair p → Free b'&' (written p)
written-Free p ((ks, h, e), (vs, k, f), _) = rw (e, f) (pair_text-Free ks vs h k)

written_all-Free :
    (pairs : List (Str × Str)) → All IsPair pairs → All (Free b'&') (written_all pairs)
written_all-Free [] h = tt
written_all-Free (p ∷ pairs) h = (written-Free p h.0, written_all-Free pairs h.1)

key_value-written : (p : Str × Str) → IsPair p → key_value b'=' (written p) ≡ p
key_value-written p ((ks, h, e), (vs, k, f), _) = rw (e, f) (key_value-pair_text ks vs h k)

append-cons-length : (a : Str) (c : ℕ) (b : Str) → 1 ≤ length (a ++ c ∷ b)
append-cons-length a c b = omega (arith, length-append a (c ∷ b))

written-pos : (p : Str × Str) → 1 ≤ length (written p)
unfolding pair_text
written-pos p = append-cons-length _ _ _

-- The limit of keys is not reached.
abbrev pub InLimit : ℕ → ℕ → Type 0
InLimit max_keys n = (max_keys ≡ 0) ⊎ (n ≤ max_keys)

limit_off : (m n k : ℕ) → InLimit m k → n < k → (ltb 0 m && leb m n) ≡ false
limit_off m n k h l = ground (arith, h)

pub limit_next : (m a b : ℕ) → InLimit m a → a ≡ b → InLimit m b
limit_next m a b h e = subst (InLimit m) e h

parse_pairs-step :
    (m count : ℕ) (obj : Object) (s : Str) (p : Str × Str) (rest : List Str)
    → 1 ≤ length s
    → key_value b'=' s ≡ p
    → (ltb 0 m && leb m count) ≡ false
    → str_eq p.0 (codes "__proto__") ≡ false
    → parse_pairs b'=' m count obj (s ∷ rest)
      ≡ parse_pairs b'=' m (count + 1) (add obj p.0 p.1) rest
unfolding parse_pairs
parse_pairs-step m count obj [] p rest h e l n = absurd (omega arith)
parse_pairs-step m count obj (c ∷ s) p rest h e l n = rw (e, l, n) refl

not_proto : (p : Str × Str) → IsPair p → str_eq p.0 (codes "__proto__") ≡ false
not_proto p (_, _, n) = n

parse_pairs-written :
    (m count : ℕ) (obj : Object) (pairs : List (Str × Str))
    → All IsPair pairs
    → InLimit m (count + length pairs)
    → parse_pairs b'=' m count obj (written_all pairs) ≡ some (add_all obj pairs)
parse_pairs-written m count obj [] h l = unfold parse_pairs in refl
parse_pairs-written m count obj (p ∷ pairs) h l =
    parse_pairs-step m count obj (written p) p (written_all pairs) (written-pos p)
      (key_value-written p h.0) (limit_off m count (count + suc (length pairs)) l (omega arith))
      (not_proto p h.0)
    ∙ parse_pairs-written m (count + 1) (add obj p.0 p.1) pairs h.1
        (limit_next m _ _ l (omega arith))

join-pos :
    (c : ℕ) (s : Str) (rest : List Str) → 1 ≤ length s → (length (join c (s ∷ rest)) == 0) ≡ false
unfolding join
join-pos c s [] h = ground arith
join-pos c s (t ∷ rest) h = ground (arith, length-append s (c ∷ join c (t ∷ rest)))

-- A joined list of pairs is read as the assignments of the pairs, in their order.
pub parse-join :
    (m : ℕ) (pairs : List (Str × Str))
    → All IsPair pairs
    → InLimit m (length pairs)
    → parse (join b'&' (written_all pairs)) b'&' b'=' m ≡ some (add_all [] pairs)
unfolding parse
parse-join m [] h l = unfold join in refl
parse-join m (p ∷ pairs) h l =
    rw
      (
        join-pos b'&' (written p) (written_all pairs) (written-pos p),
        split-join b'&' (written_all (p ∷ pairs)) (cc) (written_all-Free (p ∷ pairs) h),
      )
      (parse_pairs-written m 0 [] (p ∷ pairs) h (limit_next m _ _ l (omega arith)))
