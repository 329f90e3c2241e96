-- ===== src/Http/Objects.antt =====
-- The own properties of an object, in the order in which they were made.
use jaseci.Prelude.{
  true, false, List, [], ◌∷◌, Option, none, some, if◌then◌else◌, Str, str_eq, str_eq_iff, ◌≡◌, ◌≢◌,
  refl, sym, ◌∙◌, Bool-cases, inl, inr, arith,
}

-- `object[key]`
unfoldable pub get {ℓ} : {A : Type ℓ} → List (Str × A) → Str → Option A
get [] key = none
get ((k, v) ∷ object) key = let rest = get object key in if str_eq k key then some v else rest

-- `object[key] = v`
unfoldable pub put {ℓ} : {A : Type ℓ} → List (Str × A) → Str → A → List (Str × A)
put [] key v = (key, v) ∷ []
put ((k, w) ∷ object) key v =
    let rest = put object key v in if str_eq k key then (k, v) ∷ object else (k, w) ∷ rest

pub str_eq_self : (s : Str) → str_eq s s ≡ true
str_eq_self s = (str_eq_iff s s).1 refl

pub str_eq-ne : (a b : Str) → a ≢ b → str_eq a b ≡ false
str_eq-ne a b h = elim (Bool-cases (str_eq a b)) [
  | inl e ↦ absurd (h ((str_eq_iff a b).0 e))
  | inr e ↦ e
]

pub get-put {ℓ} :
    {A : Type ℓ} (object : List (Str × A)) (j k : Str) (v : A)
    → get (put object j v) k ≡ (if str_eq j k then some v else get object k)
unfolding get put
get-put [] j k v = refl
get-put ((i, w) ∷ object) j k v = elim (Bool-cases (str_eq i j)) [
  | inl e ↦ let same = (str_eq_iff i j).0 e in rw (e, put, same, get) (ground arith)
  | inr e ↦ elim (Bool-cases (str_eq i k)) [
    | inl f ↦
        let other : str_eq j k ≡ false = str_eq-ne j k (λ same.
          let found : str_eq i j ≡ true = (str_eq_iff i j).1 ((str_eq_iff i k).0 f ∙ sym same) in
          cc) in
        rw (e, put, f, get, other) refl
    | inr f ↦ rw (e, put, f, get) (get-put object j k v)
  ]
]
