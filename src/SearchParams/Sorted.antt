-- ===== src/SearchParams/Sorted.antt =====
-- The `sort` of URLSearchParams in url.js puts the pairs in the order of their names.
use mathlib.Core.List.{Perm}
use mathlib.Core.List.Perm
use jaseci.Prelude.{
  ℕ, zero, suc, Bool, true, false, List, [], ◌∷◌, if◌then◌else◌, if_both, Str, All, length, ◌≡◌,
  refl, ap, sym, subst, ◌∙◌, arith, Bool-cases, inl, inr,
}
use jaseci.SearchParams.{Pair, Params, is_less, exchange, sort_loop, sort}
use jaseci.SearchParams.Updates.{update_url-list}

-- `b < a` does not hold.
abbrev pub IsAtMost : Str → Str → Type 0
IsAtMost a b = is_less b a ≡ false

is_less-asym : (a b : Str) → is_less a b ≡ true → IsAtMost a b
unfolding is_less
is_less-asym [] [] h = refl
is_less-asym [] (y ∷ b) h = refl
is_less-asym (x ∷ a) [] h = absurd (cc)
is_less-asym (x ∷ a) (y ∷ b) h = ground (arith, is_less-asym a b)

IsAtMost-self : (a : Str) → IsAtMost a a
unfolding is_less
IsAtMost-self [] = refl
IsAtMost-self (x ∷ a) = ground (arith, IsAtMost-self a)

IsAtMost-trans : (a b c : Str) → IsAtMost a b → IsAtMost b c → IsAtMost a c
unfolding is_less
IsAtMost-trans [] b [] h k = refl
IsAtMost-trans [] [] (z ∷ c) h k = k
IsAtMost-trans [] (y ∷ b) (z ∷ c) h k = refl
IsAtMost-trans (x ∷ a) [] c h k = absurd (cc)
IsAtMost-trans (x ∷ a) (y ∷ b) [] h k = k
IsAtMost-trans (x ∷ a) (y ∷ b) (z ∷ c) h k = ground (arith, IsAtMost-trans a b c)

-- Every pair of the inner loop stays one of which `P` holds.
pub exchange-All :
    (P : Pair → Type 0) (x : Pair) (list : List Pair)
    → P x
    → All P list
    → P (exchange x list).0 × All P (exchange x list).1
unfolding exchange
exchange-All P x [] h k = (h, tt)
exchange-All P x (y ∷ list) h k =
    let less = is_less y.0 x.0 in
    let rest = exchange-All P (if less then y else x) list (if_both P less y x k.0 h) k.1 in
    (rest.0, (if_both P less x y h k.0, rest.1))

pub sort_loop-All :
    (P : Pair → Type 0) (n : ℕ) (list : List Pair) → All P list → All P (sort_loop n list)
unfolding sort_loop
sort_loop-All P zero list h = h
sort_loop-All P (suc n) [] h = tt
sort_loop-All P (suc n) (x ∷ list) h =
    let both = exchange-All P x list h.0 h.1 in
    (both.0, sort_loop-All P n (exchange x list).1 both.1)

-- What the inner loop leaves at its place is at most what was there and every later pair.
exchange_least :
    (x : Pair) (list : List Pair)
    → IsAtMost (exchange x list).0.0 x.0
      × All (λ q. IsAtMost (exchange x list).0.0 q.0) (exchange x list).1
unfolding exchange
exchange_least x [] = (IsAtMost-self x.0, tt)
exchange_least x (y ∷ list) = elim (Bool-cases (is_less y.0 x.0)) [
  | inl e ↦
      subst Least (sym (ap (λ (b : Bool). passed b x y list) e)) (taken (exchange_least y list) e)
  | inr e ↦
      subst Least (sym (ap (λ (b : Bool). passed b x y list) e)) (left (exchange_least x list) e)
]
  where
    Least : Pair × List Pair → Type 0
    Least r = IsAtMost r.0.0 x.0 × All (λ q. IsAtMost r.0.0 q.0) r.1

    passed : Bool → Pair → Pair → List Pair → Pair × List Pair
    passed b x y list =
        let (m, rest) = exchange (if b then y else x) list in (m, (if b then x else y) ∷ rest)

    taken :
        IsAtMost (exchange y list).0.0 y.0
          × All (λ q. IsAtMost (exchange y list).0.0 q.0) (exchange y list).1
        → is_less y.0 x.0 ≡ true
        → Least (passed true x y list)
    taken h e =
        let first = IsAtMost-trans (exchange y list).0.0 y.0 x.0 h.0 (is_less-asym y.0 x.0 e) in
        (first, (first, h.1))

    left :
        IsAtMost (exchange x list).0.0 x.0
          × All (λ q. IsAtMost (exchange x list).0.0 q.0) (exchange x list).1
        → is_less y.0 x.0 ≡ false
        → Least (passed false x y list)
    left h e = (h.0, (IsAtMost-trans (exchange x list).0.0 x.0 y.0 h.0 e, h.1))

exchange-length : (x : Pair) (list : List Pair) → length (exchange x list).1 ≡ length list
unfolding exchange
exchange-length x [] = refl
exchange-length x (y ∷ list) = ap suc (exchange-length (if is_less y.0 x.0 then y else x) list)

exchange-Perm :
    (x : Pair) (list : List Pair) → Perm ((exchange x list).0 ∷ (exchange x list).1) (x ∷ list)
unfolding exchange
exchange-Perm x [] = Perm.refl (x ∷ [])
exchange-Perm x (y ∷ list) =
    either (is_less y.0 x.0) (exchange-Perm (if is_less y.0 x.0 then y else x) list)
  where
    either :
        (b : Bool)
        → Perm
            ((exchange (if b then y else x) list).0 ∷ (exchange (if b then y else x) list).1)
            ((if b then y else x) ∷ list)
        → Perm
            ((exchange (if b then y else x) list).0
              ∷ (if b then x else y)
              ∷ (exchange (if b then y else x) list).1)
            (x ∷ y ∷ list)
    either true h = Perm.trans (Perm.swap x (exchange y list).0 (exchange y list).1) (Perm.cons x h)
    either false h =
        Perm.trans (Perm.swap y (exchange x list).0 (exchange x list).1)
          (Perm.trans (Perm.cons y h) (Perm.swap x y list))

sort_loop-Perm : (n : ℕ) (list : List Pair) → Perm (sort_loop n list) list
unfolding sort_loop
sort_loop-Perm zero list = Perm.refl list
sort_loop-Perm (suc n) [] = Perm.refl []
sort_loop-Perm (suc n) (x ∷ list) =
    Perm.trans (Perm.cons (exchange x list).0 (sort_loop-Perm n (exchange x list).1))
      (exchange-Perm x list)

-- Each pair's name is at most those of all later ones.
abbrev pub IsSorted : List Pair → Type 0
IsSorted [] = Unit
IsSorted (x ∷ list) = All (λ y. IsAtMost x.0 y.0) list × IsSorted list

sort_loop-IsSorted : (n : ℕ) (list : List Pair) → length list ≡ n → IsSorted (sort_loop n list)
unfolding sort_loop
sort_loop-IsSorted zero [] h = tt
sort_loop-IsSorted zero (x ∷ list) h = absurd (omega arith)
sort_loop-IsSorted (suc n) [] h = tt
sort_loop-IsSorted (suc n) (x ∷ list) h =
    let (m, rest) = exchange x list in
    let fits : length rest ≡ n = exchange-length x list ∙ omega arith in
    (
      sort_loop-All (λ y. IsAtMost m.0 y.0) n rest (exchange_least x list).1,
      sort_loop-IsSorted n rest fits,
    )

-- After `sort` the list has the same pairs in the order of their names.
pub sort-IsSorted : (p : Params) → IsSorted (sort p).0.list × Perm (sort p).0.list p.list
unfolding sort
sort-IsSorted p =
    let changed = update_url-list (record p { list = sort_loop (length p.list) p.list }) in
    (
      subst IsSorted (sym changed) (sort_loop-IsSorted (length p.list) p.list refl),
      subst (λ (l : List Pair). Perm l p.list) (sym changed)
          (sort_loop-Perm (length p.list) p.list),
    )
