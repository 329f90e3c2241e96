-- ===== src/Http/Headers/Combined.antt =====
-- What `finalizeHeaders` of http_core.js makes of the fields of one name.
use jaseci.Prelude.{
  Bool, true, false, not, ◌||◌, List, [], ◌∷◌, ◌++◌, Option, none, some, if◌then◌else◌, Str, codes,
  str_eq, str_eq_iff, to_lower_case, ◌≡◌, refl, ap, sym, ◌∙◌, Bool-cases, Option-cases, inl, inr,
  append_assoc, append-nil,
}
use jaseci.Http.Objects.{get, put, get-put}
use jaseci.Http.Headers.{
  Field, Entry, text, texts, is_discarded, is_inherited, undefined, inherited, slot_of, absorb,
  push, Headers, add_header, add_headers, replace_cookies, finalize_headers,
}

-- The values of the fields with a name, in their order; letters count as small.
abbrev pub values : Str → List Field → List Str
values key [] = []
values key ((name, value) ∷ fields) =
    if str_eq (to_lower_case name) key then value ∷ values key fields else values key fields

-- Values with a separator in front of each.
abbrev pub separated : Str → List Str → Str
separated sep [] = []
separated sep (v ∷ vs) = sep ++ (v ++ separated sep vs)

-- One value is a string, several are an array.
abbrev pub one_or_several : Str → List Str → Entry
one_or_several v [] = text v
one_or_several v (w ∷ vs) = texts (v ∷ w ∷ vs)

-- What `headers` has for the values of a name: an array or a string for `set-cookie`, the values
-- separated by `; ` for `cookie`, the first value for a name of DUPLICATE_DISCARD (unless duplicates are
-- to be joined), and else the values separated by `, `.
abbrev pub combine : Bool → Str → List Str → Option Entry
combine join key [] = none
combine join key (v ∷ vs) =
    if str_eq (codes "set-cookie") key
    then some (one_or_several v vs)
    else if str_eq (codes "cookie") key
    then some (text (v ++ separated (codes "; ") vs))
    else if join || not (is_discarded key)
    then some (text (v ++ separated (codes ", ") vs))
    else some (text v)

abbrev absorb_all : Bool → Str → Option Entry → List Str → Option Entry
absorb_all join key old [] = old
absorb_all join key old (v ∷ vs) = absorb_all join key (some (absorb join key old v)) vs

-- The values with one more behind them
abbrev pushed : Option (List Str) → Str → List Str
pushed none value = value ∷ []
pushed (some list) value = list ++ value ∷ []

push-pushed :
    (key : Str) (old : Option (List Str)) (value : Str) {list : List Str}
    → push (slot_of key old) value ≡ some list
    → list ≡ pushed old value
unfolding push slot_of
push-pushed key (some old) value e = cc
push-pushed key none value {list} e = by_test (is_inherited key) e
  where
    by_test :
        (b : Bool) → push (if b then inherited else undefined) value ≡ some list → list ≡ value ∷ []
    by_test true f = absurd (cc)
    by_test false f = cc

abbrev push_all : Option (List Str) → List Str → Option (List Str)
push_all old [] = old
push_all old (v ∷ vs) = push_all (some (pushed old v)) vs

push_all-some : (list vs : List Str) → push_all (some list) vs ≡ some (list ++ vs)
push_all-some list [] = ap some (sym (append-nil list))
push_all-some list (v ∷ vs) =
    push_all-some (list ++ v ∷ []) vs ∙ ap some (append_assoc list (v ∷ []) vs)

module _ (join : Bool) (key : Str) where
  absorb_all-array :
      (list vs : List Str)
      → str_eq (codes "set-cookie") key ≡ true
      → absorb_all join key (some (texts list)) vs ≡ some (texts (list ++ vs))
  unfolding absorb
  absorb_all-array list [] e = ap (λ (l : List Str). some (texts l)) (sym (append-nil list))
  absorb_all-array list (v ∷ vs) e =
      rw (e, absorb)
        (absorb_all-array (list ++ v ∷ []) vs e
          ∙ ap (λ (l : List Str). some (texts l)) (append_assoc list (v ∷ []) vs))

  -- A class in which the values are strung together.
  absorb_all-text :
      (sep : Str)
      → ((s v : Str) → absorb join key (some (text s)) v ≡ text (s ++ (sep ++ v)))
      → (s : Str) (vs : List Str)
      → absorb_all join key (some (text s)) vs ≡ some (text (s ++ separated sep vs))
  absorb_all-text sep h s [] = ap (λ (l : Str). some (text l)) (sym (append-nil s))
  absorb_all-text sep h s (v ∷ vs) =
      ap (λ (e : Entry). absorb_all join key (some e) vs) (h s v)
      ∙ absorb_all-text sep h (s ++ (sep ++ v)) vs
      ∙ ap (λ (l : Str). some (text l))
          (append_assoc s (sep ++ v) (separated sep vs)
            ∙ ap (s ++◌) (append_assoc sep v (separated sep vs)))

  absorb_all-first :
      (s : Str)
      → ((v : Str) → absorb join key (some (text s)) v ≡ text s)
      → (vs : List Str) → absorb_all join key (some (text s)) vs ≡ some (text s)
  absorb_all-first s h [] = refl
  absorb_all-first s h (v ∷ vs) =
      ap (λ (e : Entry). absorb_all join key (some e) vs) (h v) ∙ absorb_all-first s h vs

  several-absorbed :
      (v : Str) (vs : List Str)
      → str_eq (codes "set-cookie") key ≡ true
      → absorb_all join key (some (text v)) vs ≡ some (one_or_several v vs)
  unfolding absorb
  several-absorbed v [] e = refl
  several-absorbed v (w ∷ vs) e = rw (e, absorb) (absorb_all-array (v ∷ w ∷ []) vs e)

  absorb_all-combine : (vs : List Str) → absorb_all join key none vs ≡ combine join key vs
  unfolding absorb
  absorb_all-combine [] = refl
  absorb_all-combine (v ∷ vs) = elim (Bool-cases (str_eq (codes "set-cookie") key)) [
    | inl e ↦ rw e (several-absorbed v vs e)
    | inr e ↦ elim (Bool-cases (str_eq (codes "cookie") key)) [
      | inl f ↦ rw (e, f) (absorb_all-text (codes "; ") (λ s w. rw (e, absorb, f) refl) v vs)
      | inr f ↦ elim (Bool-cases (join || not (is_discarded key))) [
        | inl g ↦
            rw (e, f, g) (absorb_all-text (codes ", ") (λ s w. rw (e, absorb, f, g) refl) v vs)
        | inr g ↦ rw (e, f, g) (absorb_all-first v (λ w. rw (e, absorb, f, g) refl) vs)
      ]
    ]
  ]

-- What a round of the loop leaves at a name, where it does not throw.
add_header-get :
    (join : Bool) (h : Headers) (name value : Str) {h' : Headers}
    → add_header join h (name, value) ≡ some h'
    → (key : Str)
    → (get h'.headers key
        ≡ absorb_all join key (get h.headers key) (values key ((name, value) ∷ [])))
      × (get h'.distinct key ≡ push_all (get h.distinct key) (values key ((name, value) ∷ [])))
unfolding add_header
add_header-get join h name value {h'} e key =
    let low = to_lower_case name in
    let entry = absorb join low (get h.headers low) value in
    elim (Option-cases (push (slot_of low (get h.distinct low)) value)) [
      | inl b ↦
          let c : add_header join h (name, value) ≡ none = rw (b, add_header) refl in absurd (cc)
      | inr (result, b) ↦
          let list = pushed (get h.distinct low) value in
          let c : add_header join h (name, value)
              ≡ some (record {
                headers = put h.headers low entry;
                distinct = put h.distinct low result;
              }) =
            rw (b, add_header) refl in
          let same_list : result ≡ list = push-pushed low (get h.distinct low) value b in
          let at : h'
              ≡ record { headers = put h.headers low entry; distinct = put h.distinct low list } =
            cc in
          (
            ap (λ (x : Headers). get x.headers key) at
                ∙ get-put h.headers low key entry
                ∙ (elim (Bool-cases (str_eq low key)) [
                  | inl same ↦ rw same (
                      ap (λ (k : Str). some (absorb join k (get h.headers k) value))
                        ((str_eq_iff low key).0 same))
                  | inr other ↦ rw other refl
                ]),
            ap (λ (x : Headers). get x.distinct key) at
                ∙ get-put h.distinct low key list
                ∙ (elim (Bool-cases (str_eq low key)) [
                  | inl same ↦ rw same (
                      ap (λ (k : Str). some (pushed (get h.distinct k) value))
                        ((str_eq_iff low key).0 same))
                  | inr other ↦ rw other refl
                ]),
          )
    ]

absorb_all-append :
    (join : Bool) (key : Str) (old : Option Entry) (vs ws : List Str)
    → absorb_all join key old (vs ++ ws) ≡ absorb_all join key (absorb_all join key old vs) ws
absorb_all-append join key old [] ws = refl
absorb_all-append join key old (v ∷ vs) ws =
    absorb_all-append join key (some (absorb join key old v)) vs ws

push_all-append :
    (old : Option (List Str)) (vs ws : List Str)
    → push_all old (vs ++ ws) ≡ push_all (push_all old vs) ws
push_all-append old [] ws = refl
push_all-append old (v ∷ vs) ws = push_all-append (some (pushed old v)) vs ws

values-cons :
    (key : Str) (field : Field) (fields : List Field)
    → values key (field ∷ fields) ≡ values key (field ∷ []) ++ values key fields
values-cons key (name, value) fields = elim (Bool-cases (str_eq (to_lower_case name) key)) [
  | inl e ↦ rw e refl
  | inr e ↦ rw e refl
]

add_headers-get :
    (join : Bool) (h : Headers) (fields : List Field) {h' : Headers}
    → add_headers join h fields ≡ some h'
    → (key : Str)
    → (get h'.headers key ≡ absorb_all join key (get h.headers key) (values key fields))
      × (get h'.distinct key ≡ push_all (get h.distinct key) (values key fields))
unfolding add_headers
add_headers-get join h [] {h'} e key =
    let at : h ≡ h' = cc in
    (
      ap (λ (x : Headers). get x.headers key) (sym at),
      ap (λ (x : Headers). get x.distinct key) (sym at),
    )
add_headers-get join h ((name, value) ∷ fields) {h'} e key =
    elim (Option-cases (add_header join h (name, value))) [
      | inl f ↦
          let c : add_headers join h ((name, value) ∷ fields) ≡ none = rw (f, add_headers) refl in
          absurd (cc)
      | inr (h1, f) ↦
          let c : add_headers join h ((name, value) ∷ fields) ≡ add_headers join h1 fields =
            rw (f, add_headers) refl in
          let one = values key ((name, value) ∷ []) in
          let first = add_header-get join h name value f key in
          let others = add_headers-get join h1 fields {h' = h'} (sym c ∙ e) key in
          (
            others.0
                ∙ ap (λ (o : Option Entry). absorb_all join key o (values key fields)) first.0
                ∙ sym (absorb_all-append join key (get h.headers key) one (values key fields))
                ∙ ap (absorb_all join key (get h.headers key))
                    (sym (values-cons key (name, value) fields)),
            others.1
                ∙ ap (λ (o : Option (List Str)). push_all o (values key fields)) first.1
                ∙ sym (push_all-append (get h.distinct key) one (values key fields))
                ∙ ap (push_all (get h.distinct key)) (sym (values-cons key (name, value) fields)),
          )
    ]

abbrev pub all_or_none : List Str → Option (List Str)
all_or_none [] = none
all_or_none (v ∷ vs) = some (v ∷ vs)

push_all-none : (vs : List Str) → push_all none vs ≡ all_or_none vs
push_all-none [] = refl
push_all-none (v ∷ vs) = push_all-some (v ∷ []) vs

abbrev cookies : Str
cookies = codes "set-cookie"

put-same :
    (object : List (Str × Entry)) (j k : Str) (v : Entry)
    → get object j ≡ some v
    → get (put object j v) k ≡ get object k
put-same object j k v e = get-put object j k v ∙ (elim (Bool-cases (str_eq j k)) [
  | inl same ↦ rw same (sym e ∙ ap (get object) ((str_eq_iff j k).0 same))
  | inr other ↦ rw other refl
])

-- The array of `headersDistinct` says what `headers` says already.
replace_cookies-get :
    (join : Bool) (h : Headers) (vs : List Str) (key : Str)
    → get h.headers cookies ≡ combine join cookies vs
    → get h.distinct cookies ≡ all_or_none vs
    → (get (replace_cookies h).headers key ≡ get h.headers key)
      × ((replace_cookies h).distinct ≡ h.distinct)
unfolding replace_cookies str_eq
replace_cookies-get join h [] key e f = (rw (f, replace_cookies) refl, rw (f, replace_cookies) refl)
replace_cookies-get join h (v ∷ []) key e f = (
  rw (f, replace_cookies) (put-same h.headers cookies key (text v) e),
  rw (f, replace_cookies) refl,
)
replace_cookies-get join h (v ∷ w ∷ vs) key e f = (
  rw (f, replace_cookies) (put-same h.headers cookies key (texts (v ∷ w ∷ vs)) e),
  rw (f, replace_cookies) refl,
)

-- Where `finalizeHeaders` does not throw, `headersDistinct` has under each name all the values of the
-- fields with that name, in their order, or nothing if there are none, and `headers` has what `combine`
-- makes of them.
pub finalize_headers-combine :
    (fields : List Field) (join : Bool) {r : Headers}
    → finalize_headers fields join ≡ some r
    → (key : Str)
    → (get r.headers key ≡ combine join key (values key fields))
      × (get r.distinct key ≡ all_or_none (values key fields))
unfolding finalize_headers
finalize_headers-combine fields join {r} e key =
    let empty : Headers = record { headers = []; distinct = [] } in
    elim (Option-cases (add_headers join empty fields)) [
      | inl f ↦
          let c : finalize_headers fields join ≡ none = rw (f, finalize_headers) refl in absurd (cc)
      | inr (h, f) ↦
          let c : finalize_headers fields join ≡ some (replace_cookies h) =
            rw (f, finalize_headers) refl in
          let at : r ≡ replace_cookies h = cc in
          let all = λ (k : Str). add_headers-get join empty fields f k in
          let headers = λ (k : Str). (all k).0 ∙ absorb_all-combine join k (values k fields) in
          let distinct = λ (k : Str). (all k).1 ∙ push_all-none (values k fields) in
          let last =
            replace_cookies-get join h (values cookies fields) key (headers cookies)
              (distinct cookies) in
          (
            ap (λ (x : Headers). get x.headers key) at ∙ last.0 ∙ headers key,
            ap (λ (x : Headers). get x.distinct key) at
                ∙ ap (λ (d : List (Str × List Str)). get d key) last.1
                ∙ distinct key,
          )
    ]
