-- ===== src/Querystring/Objects/Groups.antt =====
-- What the loop of `parse` of querystring.js builds from the pairs of the fields of an object.
use jaseci.Prelude.{
  true, false, List, [], ◌∷◌, ◌++◌, Str, ◌≡◌, refl, ap, sym, ◌∙◌, All, append_assoc, append-nil,
  str_eq, str_eq_iff,
}
use jaseci.Querystring.Objects.{
  Parsed, text, texts, Object, inherited_names, is_in, grow, fresh, add,
}

-- A key that `parse` treats as no name of Object.prototype.
abbrev pub IsFree : Str → Type 0
IsFree key = is_in key inherited_names ≡ false

-- The key is no property of the object.
abbrev pub Lacks : Object → Str → Type 0
Lacks obj key = All (λ (p : Str × Parsed). str_eq p.0 key ≡ false) obj

str_eq_refl : (s : Str) → str_eq s s ≡ true
str_eq_refl s = (str_eq_iff s s).1 refl

fresh-IsFree : (key v : Str) → IsFree key → fresh key v ≡ text v
unfolding fresh
fresh-IsFree key v h = rw h refl

pub add-fresh :
    (obj : Object) (key v : Str)
    → IsFree key
    → Lacks obj key
    → add obj key v ≡ obj ++ (key, text v) ∷ []
unfolding add
add-fresh [] key v h k = ap (λ (p : Parsed). (key, p) ∷ []) (fresh-IsFree key v h)
add-fresh ((k', old) ∷ obj) key v h k = rw (k.0, add-fresh obj key v h k.1) refl

pub add-again :
    (obj : Object) (key v : Str) (old : Parsed)
    → Lacks obj key
    → add (obj ++ (key, old) ∷ []) key v ≡ obj ++ (key, grow old v) ∷ []
unfolding add
add-again [] key v old k = rw (str_eq_refl key) refl
add-again ((k', o) ∷ obj) key v old k = rw (k.0, add-again obj key v old k.1) refl

-- The assignments of a list of pairs.
abbrev pub add_all : Object → List (Str × Str) → Object
add_all obj [] = obj
add_all obj (p ∷ pairs) = add_all (add obj p.0 p.1) pairs

pub add_all-append :
    (obj : Object) (p q : List (Str × Str)) → add_all obj (p ++ q) ≡ add_all (add_all obj p) q
add_all-append obj [] q = refl
add_all-append obj (x ∷ p) q = add_all-append (add obj x.0 x.1) p q

abbrev pub with_key : Str → List Str → List (Str × Str)
with_key key [] = []
with_key key (v ∷ vs) = (key, v) ∷ with_key key vs

-- An array grows by the values of its key.
pub add_all-grow :
    (obj : Object) (key : Str) (vs ws : List Str)
    → Lacks obj key
    → add_all (obj ++ (key, texts vs) ∷ []) (with_key key ws) ≡ obj ++ (key, texts (vs ++ ws)) ∷ []
unfolding grow
add_all-grow obj key vs [] h =
    ap (λ (us : List Str). obj ++ (key, texts us) ∷ []) (sym (append-nil vs))
add_all-grow obj key vs (w ∷ ws) h =
    ap (λ (o : Object). add_all o (with_key key ws)) (add-again obj key w (texts vs) h)
    ∙ add_all-grow obj key (vs ++ w ∷ []) ws h
    ∙ ap (λ (us : List Str). obj ++ (key, texts us) ∷ []) (append_assoc vs (w ∷ []) ws)
