-- ===== src/Events/Lists.antt =====
-- What adding and removing a listener of an EventEmitter does to the list of its event.
use jaseci.Prelude.{
  ℕ, ◌+◌, Bool, true, false, not, ◌&&◌, List, [], ◌∷◌, ◌++◌, map, Option, none, some, ltb, ◌==◌,
  if◌then◌else◌, if_both, Str, str_eq, str_eq_iff, length, ◌≡◌, ◌≢◌, refl, ap, sym, ◌∙◌, Bool-cases,
  ◌⊎◌, inl, inr, eq→==,
}
use jaseci.Events.{
  Wrapper, Emitter, array_of, store, get_max_listeners, check_max_listeners, ensure, add_wrapper,
  listeners,
}

pub store-same {ℓ} : {A : Type ℓ} (arrays : ℕ → A) (a : ℕ) (v : A) → store arrays a v a ≡ v
unfolding store
store-same arrays a v = rw (eq→== a a refl) refl

str_eq_refl : (s : Str) → str_eq s s ≡ true
str_eq_refl s = (str_eq_iff s s).1 refl

pub array_of-append :
    (events : List (Str × ℕ)) (event : Str) (a : ℕ)
    → array_of events event ≡ none
    → array_of (events ++ (event, a) ∷ []) event ≡ some a
unfolding array_of
array_of-append [] event a h = rw (str_eq_refl event) refl
array_of-append ((k, b) ∷ events) event a h = elim (Bool-cases (str_eq k event)) [
  | inl e ↦ absurd (some-ne b (rw e at h))
  | inr e ↦ rw e (array_of-append events event a (rw e at h))
]
  where
    some-ne : (b : ℕ) → some b ≢ none
    some-ne b = cc

-- The functions of a list of wrappers.
abbrev pub fns : List Wrapper → List ℕ
fns = map (λ (w : Wrapper). w.fn)

pub listeners-some :
    (e : Emitter) (event : Str) (a : ℕ)
    → array_of e.events event ≡ some a
    → listeners e event ≡ fns (e.arrays a)
unfolding listeners
listeners-some e event a h = rw (h, listeners) refl

pub listeners-none :
    (e : Emitter) (event : Str) → array_of e.events event ≡ none → listeners e event ≡ []
unfolding listeners
listeners-none e event h = rw (h, listeners) refl

-- The warning does not touch the lists.
check_max_listeners-same :
    (e : Emitter) (event : Str) (a : ℕ)
    → ((check_max_listeners e event a).events ≡ e.events)
      × ((check_max_listeners e event a).arrays ≡ e.arrays)
unfolding check_max_listeners
check_max_listeners-same e event a =
    if_both (λ (x : Emitter). (x.events ≡ e.events) × (x.arrays ≡ e.arrays))
      (get_max_listeners e == 0) e _ (refl, refl)
      (if_both (λ (x : Emitter). (x.events ≡ e.events) × (x.arrays ≡ e.arrays))
        (ltb (get_max_listeners e) (length (e.arrays a)) && not (e.warned a)) _ e (refl, refl)
        (refl, refl))

pub array_cases :
    (events : List (Str × ℕ)) (event : Str)
    → (array_of events event ≡ none) ⊎ ((a : ℕ) × (array_of events event ≡ some a))
array_cases events event = cases (array_of events event)
  where
    cases : (o : Option ℕ) → (o ≡ none) ⊎ ((a : ℕ) × (o ≡ some a))
    cases none = inl refl
    cases (some a) = inr (a, refl)

-- After `ensure` the event has an array, with the listeners that it had.
abbrev Ensured : Emitter → Str → Emitter × ℕ → Type 0
Ensured e event (e', a) =
    (array_of e'.events event ≡ some a) × (fns (e'.arrays a) ≡ listeners e event)

ensure-Ensured : (e : Emitter) (event : Str) → Ensured e event (ensure e event)
unfolding ensure
ensure-Ensured e event = elim (array_cases e.events event) [
  | inl h ↦
      rw (h, ensure)
        (
          array_of-append e.events event e.next h,
          ap fns (store-same e.arrays e.next []) ∙ sym (listeners-none e event h),
        )
  | inr (a, h) ↦ rw (h, ensure) (h, sym (listeners-some e event a h))
]

fns-append : (xs ys : List Wrapper) → fns (xs ++ ys) ≡ fns xs ++ fns ys
fns-append [] ys = refl
fns-append (w ∷ xs) ys = ap (w.fn ∷◌) (fns-append xs ys)

-- Where a listener is put: in front of the others or behind them.
abbrev pub placed : Bool → ℕ → List ℕ → List ℕ
placed front fn fs = if front then fn ∷ fs else fs ++ fn ∷ []

placed-fns :
    (front : Bool) (w : Wrapper) (list : List Wrapper)
    → fns (if front then w ∷ list else list ++ w ∷ []) ≡ placed front w.fn (fns list)
placed-fns true w list = refl
placed-fns false w list = fns-append list (w ∷ [])

-- `listeners` of an emitter whose array was stored and checked.
listeners-stored :
    (e : Emitter) (event : Str) (a n : ℕ) (list : List Wrapper)
    → array_of e.events event ≡ some a
    → listeners
        (check_max_listeners (record e { arrays = store e.arrays a list; next = n }) event a)
        event
      ≡ fns list
listeners-stored e event a n list h =
    let e' : Emitter = record e { arrays = store e.arrays a list; next = n } in
    let (events, arrays) = check_max_listeners-same e' event a in
    listeners-some (check_max_listeners e' event a) event a
      (ap (λ (l : List (Str × ℕ)). array_of l event) events ∙ h)
    ∙ ap (λ (f : ℕ → List Wrapper). fns (f a)) arrays
    ∙ ap fns (store-same e.arrays a list)

-- A listener that is added stands behind the others of its event, or in front of them if it is
-- prepended.
pub listeners-add_wrapper :
    (front once : Bool) (event : Str) (fn : ℕ) (e : Emitter)
    → listeners (add_wrapper front once event fn e) event ≡ placed front fn (listeners e event)
unfolding add_wrapper
listeners-add_wrapper front once event fn e =
    let (h, k) = ensure-Ensured e event in
    let e' = (ensure e event).0 in
    let a = (ensure e event).1 in
    let w : Wrapper = record { id = e'.next; fn = fn; once = once } in
    listeners-stored e' event a (e'.next + 1)
      (if front then w ∷ e'.arrays a else e'.arrays a ++ w ∷ []) h
    ∙ placed-fns front w (e'.arrays a)
    ∙ ap (placed front fn) k
