-- ===== src/SearchParams/Lists.antt =====
-- The values of a name after the loops of URLSearchParams in url.js.
use jaseci.Prelude.{
  ◌++◌, Bool, true, false, List, [], ◌∷◌, Option, none, if◌then◌else◌, if_both, Str, str_eq,
  str_eq_iff, ◌≡◌, ◌≢◌, refl, ap, sym, ◌∙◌, Bool-cases, inl, inr,
}
use jaseci.SearchParams.{Pair, delete_from, set_loop, get_all}

str_eq_self : (a : Str) → str_eq a a ≡ true
str_eq_self a = (str_eq_iff a a).1 refl

str_ne : (a b : Str) → a ≢ b → str_eq a b ≡ false
str_ne a b h = elim (Bool-cases (str_eq a b)) [
  | inl e ↦ absurd (h ((str_eq_iff a b).0 e))
  | inr e ↦ e
]

different : (a b : Str) → str_eq a b ≡ false → a ≢ b
different a b h e = absurd (cc ((str_eq_iff a b).1 e))

get_all-found :
    (name k v : Str) (list : List Pair)
    → str_eq k name ≡ true
    → get_all name ((k, v) ∷ list) ≡ v ∷ get_all name list
unfolding get_all
get_all-found name k v list e = rw (e, get_all) refl

get_all-missed :
    (name k v : Str) (list : List Pair)
    → str_eq k name ≡ false
    → get_all name ((k, v) ∷ list) ≡ get_all name list
unfolding get_all
get_all-missed name k v list e = rw (e, get_all) refl

get_all-cons :
    (name k v : Str) (a b : List Pair)
    → get_all name a ≡ get_all name b
    → get_all name ((k, v) ∷ a) ≡ get_all name ((k, v) ∷ b)
unfolding get_all
get_all-cons name k v a b e = ap (λ (rest : List Str). if str_eq k name then v ∷ rest else rest) e

set_loop-found :
    (name value k v : Str) (found : Bool) (list : List Pair)
    → str_eq k name ≡ true
    → set_loop name value found ((k, v) ∷ list) ≡ (
        if found
        then set_loop name value true list
        else (name, value) ∷ set_loop name value true list)
unfolding set_loop
set_loop-found name value k v found list e = rw (e, set_loop) refl

set_loop-missed :
    (name value k v : Str) (found : Bool) (list : List Pair)
    → str_eq k name ≡ false
    → set_loop name value found ((k, v) ∷ list) ≡ (k, v) ∷ set_loop name value found list
unfolding set_loop
set_loop-missed name value k v found list e = rw (e, set_loop) refl

-- The values that `set` leaves of its own name
abbrev left_of : Bool → Str → List Str
left_of true value = []
left_of false value = value ∷ []

set_loop_own :
    (name value : Str) (found : Bool) (list : List Pair)
    → get_all name (set_loop name value found list) ≡ left_of found value
set_loop_own name value true [] = unfold set_loop get_all in refl
set_loop_own name value false [] =
    let one : set_loop name value false [] ≡ (name, value) ∷ [] = unfold set_loop in refl in
    let nothing : get_all name [] ≡ [] = unfold get_all in refl in
    ap (get_all name) one
    ∙ get_all-found name name value [] (str_eq_self name)
    ∙ ap (value ∷◌) nothing
set_loop_own name value found ((k, v) ∷ list) = elim (Bool-cases (str_eq k name)) [
  | inl e ↦
      ap (get_all name) (set_loop-found name value k v found list e)
      ∙ own_found (set_loop_own name value true list) found
  | inr e ↦
      ap (get_all name) (set_loop-missed name value k v found list e)
      ∙ get_all-missed name k v (set_loop name value found list) e
      ∙ set_loop_own name value found list
]
  where
    own_found :
        get_all name (set_loop name value true list) ≡ []
        → (f : Bool)
        → get_all name (
            if f
            then set_loop name value true list
            else (name, value) ∷ set_loop name value true list)
          ≡ left_of f value
    own_found h true = h
    own_found h false =
        get_all-found name name value (set_loop name value true list) (str_eq_self name)
        ∙ ap (value ∷◌) h

other_name : (name m k : Str) → m ≢ name → str_eq k name ≡ true → str_eq k m ≡ false
other_name name m k d e = str_ne k m (λ f. d (sym f ∙ (str_eq_iff k name).0 e))

set_loop_others :
    (name value m : Str) (found : Bool) (list : List Pair)
    → m ≢ name
    → get_all m (set_loop name value found list) ≡ get_all m list
set_loop_others name value m true [] d = unfold set_loop in refl
set_loop_others name value m false [] d =
    (unfold set_loop in get_all-missed m name value [] (str_ne name m (λ e. d (sym e))))
set_loop_others name value m found ((k, v) ∷ list) d = elim (Bool-cases (str_eq k name)) [
  | inl e ↦
      ap (get_all m) (set_loop-found name value k v found list e)
      ∙ others_found (set_loop_others name value m true list d) found
      ∙ sym (get_all-missed m k v list (other_name name m k d e))
  | inr e ↦
      ap (get_all m) (set_loop-missed name value k v found list e)
      ∙ get_all-cons m k v (set_loop name value found list) list
          (set_loop_others name value m found list d)
]
  where
    others_found :
        get_all m (set_loop name value true list) ≡ get_all m list
        → (f : Bool)
        → get_all m (
            if f
            then set_loop name value true list
            else (name, value) ∷ set_loop name value true list)
          ≡ get_all m list
    others_found h true = h
    others_found h false =
        get_all-missed m name value (set_loop name value true list) (str_ne name m (λ e. d (sym e)))
        ∙ h

delete_from-found :
    (name k v : Str) (list : List Pair)
    → str_eq k name ≡ true
    → delete_from name none ((k, v) ∷ list) ≡ delete_from name none list
unfolding delete_from
delete_from-found name k v list e = rw (e, delete_from) refl

delete_from-missed :
    (name : Str) (value : Option Str) (k v : Str) (list : List Pair)
    → str_eq k name ≡ false
    → delete_from name value ((k, v) ∷ list) ≡ (k, v) ∷ delete_from name value list
unfolding delete_from
delete_from-missed name value k v list e = rw (e, delete_from) refl

delete_from_own : (name : Str) (list : List Pair) → get_all name (delete_from name none list) ≡ []
delete_from_own name [] = unfold delete_from get_all in refl
delete_from_own name ((k, v) ∷ list) = elim (Bool-cases (str_eq k name)) [
  | inl e ↦ ap (get_all name) (delete_from-found name k v list e) ∙ delete_from_own name list
  | inr e ↦
      ap (get_all name) (delete_from-missed name none k v list e)
      ∙ get_all-missed name k v (delete_from name none list) e
      ∙ delete_from_own name list
]

delete_from_others :
    (name m : Str) (value : Option Str) (list : List Pair)
    → m ≢ name
    → get_all m (delete_from name value list) ≡ get_all m list
unfolding delete_from
delete_from_others name m value [] d = refl
delete_from_others name m value ((k, v) ∷ list) d =
    let rest = delete_from_others name m value list d in
    let kept = get_all-cons m k v (delete_from name value list) list rest in
    elim (Bool-cases (str_eq k name)) [
      | inl e ↦
          if_both (λ (x : List Pair). get_all m x ≡ get_all m ((k, v) ∷ list)) _
            (delete_from name value list) ((k, v) ∷ delete_from name value list)
            (rest ∙ sym (get_all-missed m k v list (other_name name m k d e))) kept
      | inr e ↦ ap (get_all m) (delete_from-missed name value k v list e) ∙ kept
    ]

-- The values of a name after the loop of `set`.
pub get_all-set_loop :
    (name value m : Str) (list : List Pair)
    → get_all m (set_loop name value false list)
      ≡ (if str_eq m name then value ∷ [] else get_all m list)
get_all-set_loop name value m list = by_name (str_eq m name) refl
  where
    by_name :
        (b : Bool)
        → str_eq m name ≡ b
        → get_all m (set_loop name value false list) ≡ (if b then value ∷ [] else get_all m list)
    by_name true e =
        ap (λ (x : Str). get_all x (set_loop name value false list)) ((str_eq_iff m name).0 e)
        ∙ set_loop_own name value false list
    by_name false e = set_loop_others name value m false list (different m name e)

-- The values of a name after the loop of `delete`.
pub get_all-delete_from :
    (name m : Str) (list : List Pair)
    → get_all m (delete_from name none list) ≡ (if str_eq m name then [] else get_all m list)
get_all-delete_from name m list = by_name (str_eq m name) refl
  where
    by_name :
        (b : Bool)
        → str_eq m name ≡ b
        → get_all m (delete_from name none list) ≡ (if b then [] else get_all m list)
    by_name true e =
        ap (λ (x : Str). get_all x (delete_from name none list)) ((str_eq_iff m name).0 e)
        ∙ delete_from_own name list
    by_name false e = delete_from_others name m none list (different m name e)

pub get_all-append : (m : Str) (a b : List Pair) → get_all m (a ++ b) ≡ get_all m a ++ get_all m b
get_all-append m [] b = unfold get_all in refl
get_all-append m ((k, v) ∷ a) b = elim (Bool-cases (str_eq k m)) [
  | inl e ↦
      get_all-found m k v (a ++ b) e
      ∙ ap (v ∷◌) (get_all-append m a b)
      ∙ ap (λ (x : List Str). x ++ get_all m b) (sym (get_all-found m k v a e))
  | inr e ↦
      get_all-missed m k v (a ++ b) e
      ∙ get_all-append m a b
      ∙ ap (λ (x : List Str). x ++ get_all m b) (sym (get_all-missed m k v a e))
]

pub get_all-one :
    (m name value : Str)
    → get_all m ((name, value) ∷ []) ≡ (if str_eq name m then value ∷ [] else [])
unfolding get_all
get_all-one m name value = refl
