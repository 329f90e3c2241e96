-- ===== src/Http/Headers/Throws.antt =====
-- When `finalizeHeaders` of http_core.js throws.
use jaseci.Prelude.{
  ℕ, zero, suc, Bool, true, false, not, ◌||◌, List, [], ◌∷◌, ◌++◌, Option, none, some, Str, codes,
  str_eq, str_eq_iff, to_lower_case, within, ◌≡◌, ◌↔◌, ◌⊎◌, refl, ap, sym, ◌∙◌, Bool-cases, inl,
  inr, arith,
}
use jaseci.Http.Objects.{get, put, get-put}
use jaseci.Http.Headers.{
  Field, is_among, is_inherited, slot_of, push, absorb, Headers, add_header, add_headers,
  replace_cookies, finalize_headers,
}

-- A name in any letters that is `constructor` or `__proto__` in small ones.
abbrev pub IsThrowing : Str → Type 0
IsThrowing name =
    (to_lower_case name ≡ codes "constructor") ⊎ (to_lower_case name ≡ codes "__proto__")

-- Of one field at least.
abbrev pub AnyThrowing : List Field → Type 0
AnyThrowing [] = ⊥
AnyThrowing ((name, value) ∷ fields) = IsThrowing name ⊎ AnyThrowing fields

-- A text has no capital letter of ASCII at a place.
abbrev small_at : ℕ → Str → Bool
small_at n [] = true
small_at zero (c ∷ s) = not (within b'A' b'Z' c)
small_at (suc n) (c ∷ s) = small_at n s

small_at-to_lower_case : (n : ℕ) (s : Str) → small_at n (to_lower_case s) ≡ true
unfolding to_lower_case
small_at-to_lower_case n [] = refl
small_at-to_lower_case zero (c ∷ s) = ground arith
small_at-to_lower_case (suc n) (c ∷ s) = small_at-to_lower_case n s

-- A name with a capital letter is not one in small letters.
capital_apart :
    (name s : Str) (n : ℕ) → small_at n name ≡ false → str_eq name (to_lower_case s) ≡ false
capital_apart name s n h = elim (Bool-cases (str_eq name (to_lower_case s))) [
  | inl e ↦
      let same : name ≡ to_lower_case s = (str_eq_iff name (to_lower_case s)).0 e in
      absurd (cc (ap (small_at n) same, h, small_at-to_lower_case n s))
  | inr e ↦ e
]

is_inherited-small :
    (s : Str)
    → is_inherited (to_lower_case s) ≡ (
        str_eq (codes "constructor") (to_lower_case s)
        || str_eq (codes "__proto__") (to_lower_case s))
unfolding is_inherited is_among
is_inherited-small s =
    rw
      (
        capital_apart (codes "__defineGetter__") s 8 refl,
        capital_apart (codes "__defineSetter__") s 8 refl,
        capital_apart (codes "hasOwnProperty") s 3 refl,
        capital_apart (codes "__lookupGetter__") s 8 refl,
        capital_apart (codes "__lookupSetter__") s 8 refl,
        capital_apart (codes "isPrototypeOf") s 2 refl,
        capital_apart (codes "propertyIsEnumerable") s 8 refl,
        capital_apart (codes "toString") s 2 refl,
        capital_apart (codes "valueOf") s 5 refl,
        capital_apart (codes "toLocaleString") s 2 refl,
      )
      (ap (str_eq (codes "constructor") (to_lower_case s) ||◌)
        (or_false (str_eq (codes "__proto__") (to_lower_case s))))
  where
    or_false : (b : Bool) → (b || false) ≡ b
    or_false true = refl
    or_false false = refl

is_inherited-IsThrowing : (s : Str) → (is_inherited (to_lower_case s) ≡ true) ↔ IsThrowing s
is_inherited-IsThrowing s = (
  λ e.
      by_test (str_eq (codes "constructor") (to_lower_case s))
        (str_eq (codes "__proto__") (to_lower_case s)) refl refl (sym (is_inherited-small s) ∙ e),
  λ t. is_inherited-small s ∙ elim t [
    | inl e ↦ rw ((str_eq_iff (codes "constructor") (to_lower_case s)).1 (sym e)) refl
    | inr e ↦
        rw ((str_eq_iff (codes "__proto__") (to_lower_case s)).1 (sym e))
          (or_true (str_eq (codes "constructor") (to_lower_case s)))
  ],
)
  where
    or_true : (b : Bool) → (b || true) ≡ true
    or_true true = refl
    or_true false = refl

    by_test :
        (a b : Bool)
        → str_eq (codes "constructor") (to_lower_case s) ≡ a
        → str_eq (codes "__proto__") (to_lower_case s) ≡ b
        → (a || b) ≡ true
        → IsThrowing s
    by_test true b e f h = inl (sym ((str_eq_iff (codes "constructor") (to_lower_case s)).0 e))
    by_test false true e f h = inr (sym ((str_eq_iff (codes "__proto__") (to_lower_case s)).0 f))
    by_test false false e f h = absurd (cc)

-- No name of the prototype is an own name of `headersDistinct`.
abbrev IsOwn : Headers → Type 0
IsOwn h = (key : Str) → is_inherited key ≡ true → get h.distinct key ≡ none

-- What a round does: it throws at such a name, and else keeps to own names.
abbrev Thrown : Bool → Option Headers → Type 0
Thrown true r = r ≡ none
Thrown false r = (h : Headers) × (r ≡ some h) × IsOwn h

push-slot_of :
    (key : Str) (old : Option (List Str)) (value : Str)
    → is_inherited key ≡ false
    → (list : List Str) × (push (slot_of key old) value ≡ some list)
unfolding push slot_of
push-slot_of key none value h = (value ∷ [], rw h refl)
push-slot_of key (some list) value h = (list ++ value ∷ [], refl)

add_header-Thrown :
    (join : Bool) (h : Headers) (name value : Str)
    → IsOwn h
    → Thrown (is_inherited (to_lower_case name)) (add_header join h (name, value))
add_header-Thrown join h name value mine = by_test (is_inherited (to_lower_case name)) refl
  where
    by_test :
        (b : Bool)
        → is_inherited (to_lower_case name) ≡ b
        → Thrown b (add_header join h (name, value))
    by_test true e =
        let low = to_lower_case name in
        let stuck : push (slot_of low (get h.distinct low)) value ≡ none =
          ap (λ (o : Option (List Str)). push (slot_of low o) value) (mine low e)
          ∙ (unfold slot_of push in (rw e refl)) in
        unfold add_header in rw (stuck, add_header) refl
    by_test false e =
        let low = to_lower_case name in
        let (list, f) = push-slot_of low (get h.distinct low) value e in
        (
          record {
            headers = put h.headers low (absorb join low (get h.headers low) value);
            distinct = put h.distinct low list;
          },
          unfold add_header in rw (f, add_header) refl,
          λ key k. get-put h.distinct low key list ∙ (elim (Bool-cases (str_eq low key)) [
            | inl same ↦ absurd (cc (ap is_inherited ((str_eq_iff low key).0 same), e, k))
            | inr other ↦ rw other (mine key k)
          ]),
        )

-- The fields whose names the prototype has, tested.
abbrev any_inherited : List Field → Bool
any_inherited [] = false
any_inherited ((name, value) ∷ fields) = is_inherited (to_lower_case name) || any_inherited fields

any_inherited-AnyThrowing :
    (fields : List Field) → (any_inherited fields ≡ true) ↔ AnyThrowing fields
any_inherited-AnyThrowing [] = (λ e. absurd (cc), λ n. absurd n)
any_inherited-AnyThrowing ((name, value) ∷ fields) =
    by_test (is_inherited (to_lower_case name)) (is_inherited-IsThrowing name)
      (any_inherited-AnyThrowing fields)
  where
    by_test :
        (b : Bool)
        → (b ≡ true) ↔ IsThrowing name
        → (any_inherited fields ≡ true) ↔ AnyThrowing fields
        → (b || any_inherited fields ≡ true) ↔ (IsThrowing name ⊎ AnyThrowing fields)
    by_test true one rest = (λ e. inl (one.0 refl), λ t. refl)
    by_test false one rest =
        (λ e. inr (rest.0 e), λ t. elim t [ inl x ↦ absurd (cc (one.1 x)) | inr x ↦ rest.1 x ])

abbrev Ended : Bool → Option Headers → Type 0
Ended true r = r ≡ none
Ended false r = (h : Headers) × (r ≡ some h)

add_headers-Ended :
    (join : Bool) (fields : List Field) (h : Headers)
    → IsOwn h
    → Ended (any_inherited fields) (add_headers join h fields)
unfolding add_headers
add_headers-Ended join [] h mine = (h, refl)
add_headers-Ended join ((name, value) ∷ fields) h mine =
    by_test (is_inherited (to_lower_case name)) (add_header-Thrown join h name value mine)
      (λ h' k. add_headers-Ended join fields h' k)
  where
    by_test :
        (b : Bool)
        → Thrown b (add_header join h (name, value))
        → ((h' : Headers) → IsOwn h' → Ended (any_inherited fields) (add_headers join h' fields))
        → Ended (b || any_inherited fields) (add_headers join h ((name, value) ∷ fields))
    by_test true e next = rw (e, add_headers) refl
    by_test false (h', e, k) next = rw (e, add_headers) (next h' k)

finalize_headers-Ended :
    (fields : List Field) (join : Bool)
    → Ended (any_inherited fields) (finalize_headers fields join)
unfolding finalize_headers
finalize_headers-Ended fields join = finalized (any_inherited fields) _ (
    add_headers-Ended join fields (record { headers = []; distinct = [] })
      (λ key k. (unfold get in refl)))
  where
    finalized :
        (b : Bool) (r : Option Headers)
        → Ended b r
        → Ended b (elim r [ none ↦ none | some h ↦ some (replace_cookies h) ])
    finalized true r e = rw e refl
    finalized false r (h, e) = (replace_cookies h, rw e refl)

-- `finalizeHeaders` throws exactly when the name of a field, in small letters, is `constructor` or
-- `__proto__`.
pub finalize_headers-none_iff :
    (fields : List Field) (join : Bool) → (finalize_headers fields join ≡ none) ↔ AnyThrowing fields
finalize_headers-none_iff fields join =
    decided (any_inherited fields) (finalize_headers fields join)
      (finalize_headers-Ended fields join) (any_inherited-AnyThrowing fields)
  where
    decided :
        (b : Bool) (r : Option Headers)
        → Ended b r
        → (b ≡ true) ↔ AnyThrowing fields
        → (r ≡ none) ↔ AnyThrowing fields
    decided true r e t = (λ _. t.0 refl, λ _. e)
    decided false r (h, e) t = (λ n. cc, λ x. absurd (cc (t.1 x)))
