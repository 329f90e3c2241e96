-- ===== src/FetchHeaders/Laws.antt =====
-- What `get` of Headers in fetch.js says after `set`, `append` and `delete`.
use jaseci.Prelude.{
  Bool, true, false, List, [], ◌∷◌, ◌++◌, Option, none, some, if◌then◌else◌, Str, str_eq,
  to_lower_case, ◌≡◌, refl, ap, sym, ◌∙◌, append_assoc, append-nil,
}
use jaseci.Numerals.{trim}
use jaseci.SearchParams.{get_all, set_loop}
use jaseci.SearchParams.Lists.{get_all-set_loop, get_all-append, get_all-one}
use jaseci.FetchHeaders.{Headers, is_immutable, append, set, join_values, combined, get}

-- A value behind a text of values, if there is one
abbrev pub added : Option Str → Str → Str
added none value = value
added (some text) value = text ++ b',' ∷ 32 ∷ value

combined-added :
    (vs : List Str) (value : Str) → combined (vs ++ value ∷ []) ≡ some (added (combined vs) value)
unfolding combined
combined-added [] value = unfold join_values in refl
combined-added (v ∷ vs) value = ap some (joined v vs)
  where
    joined :
        (v : Str) (vs : List Str)
        → join_values ((v ∷ vs) ++ value ∷ []) ≡ join_values (v ∷ vs) ++ b',' ∷ 32 ∷ value
    joined v [] = unfold join_values in refl
    joined v (w ∷ vs) =
        unfold join_values in
        (ap (λ (x : Str). v ++ b',' ∷ 32 ∷ x) (joined w vs)
          ∙ sym (append_assoc v (b',' ∷ 32 ∷ join_values (w ∷ vs)) (b',' ∷ 32 ∷ value)))

-- After `set` its name, in whatever letters, has the trimmed value alone, and each other name what it had;
-- the headers are not immutable.
pub get-set :
    (name value m : Str) (h : Headers)
    → is_immutable h.guard ≡ false
    → (next : Headers) × (set name value h ≡ some next)
      × (get m next
          ≡ (if str_eq (to_lower_case m) (to_lower_case name) then some (trim value) else get m h))
unfolding set get
get-set name value m h free = (
  record h { entries = set_loop (to_lower_case name) (trim value) false h.entries },
  rw free refl,
  ap combined (get_all-set_loop (to_lower_case name) (trim value) (to_lower_case m) h.entries)
      ∙ by_name (str_eq (to_lower_case m) (to_lower_case name)),
)
  where
    by_name :
        (b : Bool)
        → combined (if b then trim value ∷ [] else get_all (to_lower_case m) h.entries)
          ≡ (if b then some (trim value) else combined (get_all (to_lower_case m) h.entries))
    by_name true = unfold combined join_values in refl
    by_name false = refl

-- After `append` its name, in whatever letters, has the trimmed value behind what it had, with a comma and
-- a space between, and each other name what it had; the headers are not immutable.
pub get-append :
    (name value m : Str) (h : Headers)
    → is_immutable h.guard ≡ false
    → (next : Headers) × (append name value h ≡ some next)
      × (get m next ≡ (
          if str_eq (to_lower_case name) (to_lower_case m)
          then some (added (get m h) (trim value))
          else get m h))
unfolding append get
get-append name value m h free = (
  record h { entries = h.entries ++ (to_lower_case name, trim value) ∷ [] },
  rw free refl,
  ap combined (
        get_all-append (to_lower_case m) h.entries ((to_lower_case name, trim value) ∷ [])
        ∙ ap (get_all (to_lower_case m) h.entries ++◌)
            (get_all-one (to_lower_case m) (to_lower_case name) (trim value)))
      ∙ by_name (str_eq (to_lower_case name) (to_lower_case m)),
)
  where
    by_name :
        (b : Bool)
        → combined (get_all (to_lower_case m) h.entries ++ (if b then trim value ∷ [] else [])) ≡ (
            if b
            then some (added (combined (get_all (to_lower_case m) h.entries)) (trim value))
            else combined (get_all (to_lower_case m) h.entries))
    by_name true = combined-added (get_all (to_lower_case m) h.entries) (trim value)
    by_name false = ap combined (append-nil (get_all (to_lower_case m) h.entries))
