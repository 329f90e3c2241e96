-- ===== src/SearchParams/Updates.antt =====
-- What the names of URLSearchParams in url.js have after `set` and `delete`.
use jaseci.Prelude.{
  false, [], ◌∷◌, Option, none, some, if◌then◌else◌, Str, str_eq, ◌≡◌, refl, ap, ◌∙◌,
}
use jaseci.SearchParams.{
  Params, to_text, set_search, update_with, update_url, delete_from, set_loop, delete, set, get_all,
}
use jaseci.SearchParams.Lists.{get_all-set_loop, get_all-delete_from}

set_search-list : (t : Option Str) (p : Params) → (set_search t p).0.list ≡ p.list
unfolding set_search
set_search-list none p = refl
set_search-list (some t) p = refl

update_with-list : (o : Option Str) (p : Params) → (update_with o p).0.list ≡ p.list
unfolding update_with
update_with-list none p = refl
update_with-list (some old) p = set_search-list (to_text p.list) p

-- `_updateUrl` keeps the list.
pub update_url-list : (p : Params) → (update_url p).0.list ≡ p.list
unfolding update_url
update_url-list p = update_with-list p.search p

-- After `set` its name has the one value given, and each other name the values it had.
pub get_all-set :
    (name value m : Str) (p : Params)
    → get_all m (set name value p).0.list ≡ (if str_eq m name then value ∷ [] else get_all m p.list)
unfolding set
get_all-set name value m p =
    ap (get_all m) (update_url-list (record p { list = set_loop name value false p.list }))
    ∙ get_all-set_loop name value m p.list

-- After `delete` without a value its name has none, and each other name the values it had.
pub get_all-delete :
    (name m : Str) (p : Params)
    → get_all m (delete name none p).0.list ≡ (if str_eq m name then [] else get_all m p.list)
unfolding delete
get_all-delete name m p =
    ap (get_all m) (update_url-list (record p { list = delete_from name none p.list }))
    ∙ get_all-delete_from name m p.list
