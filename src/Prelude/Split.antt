-- ===== src/Prelude/Split.antt =====
-- Laws of `split`, `join` and `lastIndexOf`.
use Prim.Native.Nat.{ℕ, zero, suc}
use mathlib.Core.List.{List, [], ◌∷◌, ◌++◌}
use mathlib.Core.Logic.{◌≢◌, inl, inr}
use mathlib.Core.Path.{◌≡◌, refl, ap, ◌∙◌}
use native.Mathlib.Omega.{arith}
use jaseci.Prelude.Tests.{◌==◌, Bool-cases, eq→==, ne→==}
use jaseci.Prelude.Lists.{length, take, drop, All}
use jaseci.Prelude.Text.{Str, cons_head, split, join, Free, split-ne-nil, last_index_of, index_of}

cons_head-append : (x : ℕ) (p q : List Str) → p ≢ [] → cons_head x (p ++ q) ≡ cons_head x p ++ q
unfolding cons_head
cons_head-append x [] q h = absurd (h refl)
cons_head-append x (s ∷ p) q h = refl

-- A separator splits the pieces.
pub split-append : (c : ℕ) (a b : Str) → split c (a ++ c ∷ b) ≡ split c a ++ split c b
unfolding split
split-append c [] b = rw (eq→== c c refl)
split-append c (x ∷ a) b = elim (Bool-cases (x == c)) [
  | inl e ↦ rw e (ap ([] ∷◌) (split-append c a b))
  | inr e ↦
      rw (e, split-append c a b) (cons_head-append x (split c a) (split c b) (split-ne-nil c a))
]

pub split-Free : (c : ℕ) (s : Str) → Free c s → split c s ≡ s ∷ []
unfolding split
split-Free c [] h = refl
split-Free c (x ∷ s) h = rw (ne→== x c h.0, split-Free c s h.1) (unfold cons_head in refl)

cons_head-All : (c x : ℕ) (p : List Str) → x ≢ c → All (Free c) p → All (Free c) (cons_head x p)
unfolding cons_head
cons_head-All c x [] h k = ((h, tt), tt)
cons_head-All c x (s ∷ p) h k = ((h, k.0), k.1)

-- No piece holds the separator.
pub split-All-Free : (c : ℕ) (s : Str) → All (Free c) (split c s)
unfolding split
split-All-Free c [] = (tt, tt)
split-All-Free c (x ∷ s) = elim (Bool-cases (x == c)) [
  | inl e ↦ rw e (tt, split-All-Free c s)
  | inr e ↦ rw e (cons_head-All c x (split c s) (ground arith) (split-All-Free c s))
]

-- `split` undoes `join`.
pub split-join : (c : ℕ) (p : List Str) → p ≢ [] → All (Free c) p → split c (join c p) ≡ p
unfolding join
split-join c [] h k = absurd (h refl)
split-join c (s ∷ []) h k = split-Free c s k.0
split-join c (s ∷ t ∷ p) h k =
    split-append c s (join c (t ∷ p)) ∙ rw (split-Free c s k.0, split-join c (t ∷ p) (cc) k.1)

module _ (c : ℕ) where
  -- 0 means that there is none.
  pub last_index_of-Free : (s : Str) → last_index_of s c ≡ 0 → Free c s
  unfolding last_index_of
  last_index_of-Free [] h = tt
  last_index_of-Free (x ∷ s) h = (ground (arith), last_index_of-Free s (ground arith))

  -- Otherwise it splits the string at the last occurrence.
  pub last_index_of-splits :
      (s : Str) (i : ℕ)
      → last_index_of s c ≡ suc i
      → (s ≡ take i s ++ c ∷ drop (suc i) s) × Free c (drop (suc i) s)
  unfolding last_index_of
  last_index_of-splits [] i h = absurd (omega arith)
  last_index_of-splits (x ∷ s) zero h = (ground arith, last_index_of-Free s (ground arith))
  last_index_of-splits (x ∷ s) (suc i) h =
      let (p, q) = last_index_of-splits s i (ground arith) in (ap (x ∷◌) p, q)

pub join-cons_head : (c x : ℕ) (p : List Str) → p ≢ [] → join c (cons_head x p) ≡ x ∷ join c p
unfolding join cons_head
join-cons_head c x [] h = absurd (h refl)
join-cons_head c x (s ∷ []) h = refl
join-cons_head c x (s ∷ t ∷ p) h = refl

pub join-nil : (c : ℕ) (p : List Str) → p ≢ [] → join c ([] ∷ p) ≡ c ∷ join c p
unfolding join
join-nil c [] h = absurd (h refl)
join-nil c (s ∷ p) h = refl

-- `join` undoes `split`.
pub join-split : (c : ℕ) (s : Str) → join c (split c s) ≡ s
unfolding split
join-split c [] = unfold join in refl
join-split c (x ∷ s) = elim (Bool-cases (x == c)) [
  | inl e ↦ rw (e, join-nil c (split c s) (split-ne-nil c s), join-split c s) (ground (arith, e))
  | inr e ↦ rw (e, join-cons_head c x (split c s) (split-ne-nil c s), join-split c s) refl
]

pub index_of-append : (c : ℕ) (a b : Str) → Free c a → index_of (a ++ c ∷ b) c ≡ suc (length a)
unfolding index_of
index_of-append c [] b h = rw (eq→== c c refl) refl
index_of-append c (x ∷ a) b h = rw (ne→== x c h.0, index_of-append c a b h.1) (ground arith)
