-- ===== src/SearchParams/Linked.antt =====
-- The URL that URLSearchParams of url.js belong to follows their list.
use jaseci.Prelude.{
  Bool, true, false, List, [], ◌∷◌, ◌++◌, Option, none, some, if◌then◌else◌, if_both, Str, str_eq,
  All, All-append, length, ◌≡◌, refl, ap, sym, subst, ◌∙◌, Option-cases, inl, inr,
}
use jaseci.SearchParams
use jaseci.SearchParams.{
  Pair, Params, parse_string, to_text, update_url, delete_from, set_loop, sort_loop, update_with,
  mark, set_search,
}
use jaseci.SearchParams.Sorted.{sort_loop-All}
use jaseci.SearchParams.Encoding.{IsPlain}
use jaseci.SearchParams.Written.{IsPlainPair, parse_string-to_text}

-- What `_search` of the URL says is the list.
abbrev pub Agrees : Params → Type 0
Agrees p = elim p.search [ none ↦ Unit | some s ↦ parse_string s ≡ p.list ]

-- The names and values have no surrogates, and the URL agrees.
pub record IsLinked (p : Params) : Type 0 where
  pub plain : All IsPlainPair p.list
  pub agrees : Agrees p

update_url-none : (p : Params) → p.search ≡ none → update_url p ≡ (p, true)
unfolding update_url update_with
update_url-none p e = ap (λ (o : Option Str). update_with o p) e

update_url-some :
    (p : Params) (old t : Str)
    → p.search ≡ some old
    → to_text p.list ≡ some t
    → update_url p ≡ (record p { search = some (mark t) }, true)
unfolding update_url update_with set_search
update_url-some p old t e f =
    ap (λ (o : Option Str). update_with o p) e ∙ ap (λ (o : Option Str). set_search o p) f

-- `_updateUrl` does not throw, and brings the URL up to date.
abbrev Updated : Params × Bool → Type 0
Updated r = (r.1 ≡ true) × IsLinked r.0

update_url-Updated : (p : Params) → All IsPlainPair p.list → Updated (update_url p)
update_url-Updated p h = elim (Option-cases p.search) [
  | inl e ↦
      let agrees : Agrees p =
        subst (λ (o : Option Str). elim o [ none ↦ Unit | some s ↦ parse_string s ≡ p.list ])
          (sym e) tt in
      subst Updated (sym (update_url-none p e)) (refl, record { plain = h; agrees = agrees })
  | inr (old, e) ↦
      let (t, written, plain_back, back) = parse_string-to_text p.list h in
      subst Updated (sym (update_url-some p old t e written))
        (refl, record { plain = h; agrees = back })
]

delete_from-plain :
    (name : Str) (value : Option Str) (list : List Pair)
    → All IsPlainPair list
    → All IsPlainPair (delete_from name value list)
unfolding delete_from
delete_from-plain name value [] h = tt
delete_from-plain name value ((k, v) ∷ list) h =
    let rest = delete_from-plain name value list h.1 in
    if_both (All IsPlainPair) _ (delete_from name value list) ((k, v) ∷ delete_from name value list)
      rest (h.0, rest)

set_loop-plain :
    (name value : Str) (list : List Pair) (found : Bool)
    → IsPlainPair (name, value)
    → All IsPlainPair list
    → All IsPlainPair (set_loop name value found list)
unfolding set_loop
set_loop-plain name value [] true n h = tt
set_loop-plain name value [] false n h = (n, tt)
set_loop-plain name value ((k, v) ∷ list) found n h =
    let after = set_loop-plain name value list true n h.1 in
    if_both (All IsPlainPair) (str_eq k name)
      (if found
        then set_loop name value true list
        else (name, value) ∷ set_loop name value true list)
      ((k, v) ∷ set_loop name value found list)
      (if_both (All IsPlainPair) found (set_loop name value true list)
        ((name, value) ∷ set_loop name value true list) after (n, after))
      (h.0, set_loop-plain name value list found n h.1)

-- The calls that change the parameters.
pub data Change : Type 0 where
  append : Str → Str → Change
  delete : Str → Option Str → Change
  set : Str → Str → Change
  sort : Change

abbrev pub change : Change → Params → Params × Bool
change (Change.append name value) p = SearchParams.append name value p
change (Change.delete name value) p = SearchParams.delete name value p
change (Change.set name value) p = SearchParams.set name value p
change Change.sort p = SearchParams.sort p

-- What a call adds has no surrogates.
abbrev pub IsPlainChange : Change → Type 0
IsPlainChange (Change.append name value) = IsPlain name × IsPlain value
IsPlainChange (Change.delete name value) = Unit
IsPlainChange (Change.set name value) = IsPlain name × IsPlain value
IsPlainChange Change.sort = Unit

-- The calls `append`, `delete`, `set` and `sort` return, and keep the query of the URL in agreement with
-- the list: parsed, it is the list. What they add has no surrogates.
pub change-IsLinked :
    (c : Change) (p : Params)
    → IsPlainChange c
    → IsLinked p
    → ((change c p).1 ≡ true) × IsLinked (change c p).0
unfolding SearchParams.append SearchParams.delete SearchParams.set SearchParams.sort
change-IsLinked (Change.append name value) p n h =
    update_url-Updated (record p { list = p.list ++ (name, value) ∷ [] })
      (All-append IsPlainPair p.list ((name, value) ∷ []) h.plain (n, tt))
change-IsLinked (Change.delete name value) p n h =
    update_url-Updated (record p { list = delete_from name value p.list })
      (delete_from-plain name value p.list h.plain)
change-IsLinked (Change.set name value) p n h =
    update_url-Updated (record p { list = set_loop name value false p.list })
      (set_loop-plain name value p.list false n h.plain)
change-IsLinked Change.sort p n h =
    update_url-Updated (record p { list = sort_loop (length p.list) p.list })
      (sort_loop-All IsPlainPair (length p.list) p.list h.plain)
