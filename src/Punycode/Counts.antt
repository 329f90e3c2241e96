-- ===== src/Punycode/Counts.antt =====
-- The code points of `encode` of punycode.js that are below or at `n`, and the loop that looks for
-- the next `n`.
use jaseci.Prelude.{
  ℕ, ◌+◌, ◌<◌, ◌≤◌, Bool, true, false, ◌&&◌, List, [], ◌∷◌, ltb, leb, ◌==◌, if◌then◌else◌,
  Bool-cases, inl, inr, ◌⊎◌, length, ◌≡◌, refl, sym, subst, ◌∙◌, arith, All, eq→==,
}
use jaseci.Punycode.{next_point}

-- How many code points are below `n`, and how many are `n`.
abbrev pub count_below : ℕ → List ℕ → ℕ
count_below n [] = 0
count_below n (c ∷ points) = (if ltb c n then 1 else 0) + count_below n points

abbrev pub count_at : ℕ → List ℕ → ℕ
count_at n [] = 0
count_at n (c ∷ points) = (if c == n then 1 else 0) + count_at n points

pub count_below-suc :
    (n : ℕ) (points : List ℕ)
    → count_below (n + 1) points ≡ count_below n points + count_at n points
count_below-suc n [] = omega arith
count_below-suc n (c ∷ points) = ground (arith, count_below-suc n points)

count_below-le : (n : ℕ) (points : List ℕ) → count_below n points ≤ length points
count_below-le n [] = omega arith
count_below-le n (c ∷ points) = ground (arith, count_below-le n points)

-- Nothing lies between two numbers.
pub count_below-gap :
    (n m : ℕ) (points : List ℕ)
    → n ≤ m
    → All (λ c. n ≤ c → m ≤ c) points
    → count_below m points ≡ count_below n points
count_below-gap n m [] h k = refl
count_below-gap n m (c ∷ points) h k = ground (arith, count_below-gap n m points h k.1, k.0)

if-either : (b : Bool) (c m : ℕ) → ((if b then c else m) ≡ c) ⊎ ((if b then c else m) ≡ m)
if-either true c m = inl refl
if-either false c m = inr refl

count_at-here : (x c : ℕ) (points : List ℕ) → x ≡ c → 0 < count_at x (c ∷ points)
count_at-here x c points h = rw (eq→== c x (sym h)) (omega arith)

count_at-there : (x c : ℕ) (points : List ℕ) → 0 < count_at x points → 0 < count_at x (c ∷ points)
count_at-there x c points h = omega arith

hit-cons :
    (c m m' x : ℕ) (points : List ℕ)
    → (m' ≡ c) ⊎ (m' ≡ m)
    → (x ≡ m') ⊎ (0 < count_at x points)
    → (x ≡ m) ⊎ (0 < count_at x (c ∷ points))
hit-cons c m m' x points (inl e) (inl h) = inr (count_at-here x c points (h ∙ e))
hit-cons c m m' x points (inr e) (inl h) = inl (h ∙ e)
hit-cons c m m' x points _ (inr h) = inr (count_at-there x c points h)

-- The smallest code point that is at least `n`, if there is one below the starting value.
module _ (n : ℕ) where
  pub next_point-le : (points : List ℕ) (m : ℕ) → next_point n points m ≤ m
  unfolding next_point
  next_point-le [] m = omega arith
  next_point-le (c ∷ points) m =
      ground (arith, next_point-le points (if leb n c && ltb c m then c else m))

  pub next_point-ge : (points : List ℕ) (m : ℕ) → n ≤ m → n ≤ next_point n points m
  unfolding next_point
  next_point-ge [] m h = h
  next_point-ge (c ∷ points) m h =
      next_point-ge points (if leb n c && ltb c m then c else m) (ground arith)

  pub next_point-All :
      (points : List ℕ) (m : ℕ) → All (λ c. n ≤ c → next_point n points m ≤ c) points
  unfolding next_point
  next_point-All [] m = tt
  next_point-All (c ∷ points) m =
      let m' = if leb n c && ltb c m then c else m in
      let le : next_point n points m' ≤ m' = next_point-le points m' in
      let here : n ≤ c → m' ≤ c = λ h. ground arith in
      ((λ h. omega (arith, here h)), next_point-All points m')

  pub next_point-hit :
      (points : List ℕ) (m : ℕ)
      → (next_point n points m ≡ m) ⊎ (0 < count_at (next_point n points m) points)
  unfolding next_point
  next_point-hit [] m = inl refl
  next_point-hit (c ∷ points) m =
      let m' = if leb n c && ltb c m then c else m in
      hit-cons c m m' (next_point n points m') points (if-either (leb n c && ltb c m) c m)
        (next_point-hit points m')

pub count_at-bound :
    (b x : ℕ) (points : List ℕ) → All (λ c. c < b) points → 0 < count_at x points → x < b
count_at-bound b x [] h k = absurd (omega arith)
count_at-bound b x (c ∷ points) h k = elim (Bool-cases (c == x)) [
  | inl e ↦ ground (arith, h.0, e)
  | inr e ↦
      count_at-bound b x points h.1
        (omega (arith, subst (λ t. 0 < (if t then 1 else 0) + count_at x points) e k))
]

-- With no point from `n` on, every point is below `n`.
pub count_below-full :
    (b n : ℕ) (points : List ℕ)
    → All (λ c. c < b) points
    → All (λ c. n ≤ c → b ≤ c) points
    → count_below n points ≡ length points
count_below-full b n [] h k = refl
count_below-full b n (c ∷ points) h k =
    ground (arith, count_below-full b n points h.1 k.1, h.0, k.0)
