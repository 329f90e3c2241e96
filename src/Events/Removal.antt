-- ===== src/Events/Removal.antt =====
-- `off` of an EventEmitter removes the listener that was added last.
use jaseci.Prelude.{
  ℕ, Bool, true, false, ◌||◌, List, [], ◌∷◌, ◌++◌, Option, none, some, ◌==◌, if◌then◌else◌, Str,
  codes, str_eq, length, ◌≡◌, refl, ap, sym, subst, ◌∙◌, arith, Bool-cases, inl, inr, eq→==,
}
use jaseci.Events.{
  Wrapper, Emitter, Status, finished, array_of, delete, store, listeners, remove_last, clean_up,
  add_wrapper,
}
use jaseci.Events.Emit.{Call, Domain, announce, off_end, off, remove_all, tell_removed, remove_end}
use jaseci.Events.Lists.{
  store-same, array_cases, fns, listeners-some, listeners-none, listeners-add_wrapper,
}

abbrev pub has : ℕ → List ℕ → Bool
has fn [] = false
has fn (f ∷ fs) = f == fn || has fn fs

-- The list without the last occurrence.
abbrev pub without_last : ℕ → List ℕ → List ℕ
without_last fn [] = []
without_last fn (f ∷ fs) =
    let rest = without_last fn fs in if has fn fs then f ∷ rest else if f == fn then fs else f ∷ fs

-- What `remove_last` finds, and what it leaves.
abbrev Removed : ℕ → List Wrapper → Option (List Wrapper) → Type 0
Removed fn list none = (has fn (fns list) ≡ false) × (without_last fn (fns list) ≡ fns list)
Removed fn list (some rest) = (has fn (fns list) ≡ true) × (without_last fn (fns list) ≡ fns rest)

remove_last-Removed : (fn : ℕ) (list : List Wrapper) → Removed fn list (remove_last fn list)
unfolding remove_last
remove_last-Removed fn [] = (refl, refl)
remove_last-Removed fn (w ∷ list) = step (remove_last fn list) (remove_last-Removed fn list)
  where
    here :
        (b : Bool)
        → (w.fn == fn) ≡ b
        → has fn (fns list) ≡ false
        → Removed fn (w ∷ list) (if b then some list else none)
    here true e h = rw (e, h) (refl, refl)
    here false e h = rw (e, h) (refl, refl)

    found : (b : Bool) → b || true ≡ true
    found true = refl
    found false = refl

    step :
        (o : Option (List Wrapper))
        → Removed fn list o
        → Removed fn (w ∷ list) (elim o as (λ o. Option (List Wrapper)) [
          | some rest ↦ some (w ∷ rest)
          | none ↦ if w.fn == fn then some list else none
        ])
    step none (h, k) = here (w.fn == fn) refl h
    step (some rest) (h, k) = rw (h, k) (found (w.fn == fn), refl)

pub array_of-delete :
    (events : List (Str × ℕ)) (event : Str) → array_of (delete events event) event ≡ none
unfolding array_of delete
array_of-delete [] event = refl
array_of-delete ((k, a) ∷ events) event = elim (Bool-cases (str_eq k event)) [
  | inl e ↦ rw e (array_of-delete events event)
  | inr e ↦ rw e (rw e (array_of-delete events event))
]

fns-empty : (list : List Wrapper) → (length list == 0) ≡ true → [] ≡ fns list
fns-empty [] h = refl
fns-empty (w ∷ list) h = absurd (ground arith)

pub clean_up-listeners :
    (e : Emitter) (event : Str) (a : ℕ)
    → array_of e.events event ≡ some a
    → listeners (clean_up a event e) event ≡ fns (e.arrays a)
unfolding clean_up
clean_up-listeners e event a h = elim (Bool-cases (length (e.arrays a) == 0)) [
  | inl z ↦ rw z (
      listeners-none (record e { events = delete e.events event }) event
        (array_of-delete e.events event)
      ∙ fns-empty (e.arrays a) z)
  | inr z ↦ rw z (listeners-some e event a h)
]

-- No listener is told of a removal.
abbrev pub Unwatched : Emitter → Type 0
Unwatched e = array_of e.events (codes "removeListener") ≡ none

announce-none :
    (call : Call) (domain : Domain) (fuel : ℕ) (event : Str) (fn : ℕ) (e : Emitter)
    → Unwatched e
    → announce call domain fuel (codes "removeListener") event fn e ≡ (e, finished true)
unfolding announce
announce-none call domain fuel event fn e h = rw (h, announce) refl

abbrev Removes : Emitter → Str → ℕ → Emitter × Status → Type 0
Removes e event fn r =
    (r.1 ≡ finished true) × (listeners r.0 event ≡ without_last fn (listeners e event))

-- `off` on an event without an array, and on one with it.
off-absent :
    (call : Call) (domain : Domain) (fuel : ℕ) (event : Str) (fn : ℕ) (e : Emitter)
    → array_of e.events event ≡ none
    → Removes e event fn (off call domain fuel event fn e)
unfolding off
off-absent call domain fuel event fn e h =
    let empty = listeners-none e event h in
    rw (h, off) (refl, empty ∙ ap (without_last fn) (sym empty))

off-present :
    (call : Call) (domain : Domain) (fuel : ℕ) (event : Str) (fn a : ℕ) (e : Emitter)
    → Unwatched e
    → array_of e.events event ≡ some a
    → Removes e event fn (off call domain fuel event fn e)
unfolding off
off-present call domain fuel event fn a e u h =
    let all = listeners-some e event a h in
    rw (h, off) (go (remove_last fn (e.arrays a)) (remove_last-Removed fn (e.arrays a)) all)
  where
    kept : (rest : List Wrapper) → Emitter
    kept rest = record e { arrays = store e.arrays a rest }

    go :
        (o : Option (List Wrapper))
        → Removed fn (e.arrays a) o
        → listeners e event ≡ fns (e.arrays a)
        → Removes e event fn (elim o as (λ o. Emitter × Status) [
          | none ↦ (clean_up a event e, finished true)
          | some rest ↦
              off_end a event
                (announce call domain fuel (codes "removeListener") event fn (kept rest))
        ])
    go none r all =
        (refl, clean_up-listeners e event a h ∙ sym r.1 ∙ ap (without_last fn) (sym all))
    go (some rest) r all =
        subst (λ r. Removes e event fn (off_end a event r))
          (sym (announce-none call domain fuel event fn (kept rest) u))
          (unfold off_end in
            (
              refl,
              clean_up-listeners (kept rest) event a h
                  ∙ ap fns (store-same e.arrays a rest)
                  ∙ sym r.1
                  ∙ ap (without_last fn) (sym all),
            ))

-- With no listener on removeListener, `off` returns, and it takes the last occurrence of the listener
-- from the list of the event, which is left as it is where the listener does not occur.
pub off-listeners :
    (call : Call) (domain : Domain) (fuel : ℕ) (event : Str) (fn : ℕ) (e : Emitter)
    → Unwatched e
    → ((off call domain fuel event fn e).1 ≡ finished true)
      × (listeners (off call domain fuel event fn e).0 event ≡ without_last fn (listeners e event))
off-listeners call domain fuel event fn e u = elim (array_cases e.events event) [
  | inl h ↦ off-absent call domain fuel event fn e h
  | inr (a, h) ↦ off-present call domain fuel event fn a e u h
]

has-append : (fn : ℕ) (fs : List ℕ) → has fn (fs ++ fn ∷ []) ≡ true
has-append fn [] = rw (eq→== fn fn refl) refl
has-append fn (f ∷ fs) = rw (has-append fn fs) (or-true (f == fn))
  where
    or-true : (b : Bool) → b || true ≡ true
    or-true true = refl
    or-true false = refl

without_last-append : (fn : ℕ) (fs : List ℕ) → without_last fn (fs ++ fn ∷ []) ≡ fs
without_last-append fn [] = rw (eq→== fn fn refl) refl
without_last-append fn (f ∷ fs) = rw (has-append fn fs) (ap (f ∷◌) (without_last-append fn fs))

-- With no listener on removeListener afterwards, removing a listener that was just added, for one call
-- or for all, returns and gives back the list of its event.
pub off-add_wrapper :
    (call : Call) (domain : Domain) (fuel : ℕ) (once : Bool) (event : Str) (fn : ℕ) (e : Emitter)
    → Unwatched (add_wrapper false once event fn e)
    → ((off call domain fuel event fn (add_wrapper false once event fn e)).1 ≡ finished true)
      × (listeners (off call domain fuel event fn (add_wrapper false once event fn e)).0 event
          ≡ listeners e event)
off-add_wrapper call domain fuel once event fn e u =
    let (done, list) =
      off-listeners call domain fuel event fn (add_wrapper false once event fn e) u in
    (
      done,
      list
          ∙ ap (without_last fn) (listeners-add_wrapper false once event fn e)
          ∙ without_last-append fn (listeners e event),
    )

tell_removed-none :
    (call : Call) (domain : Domain) (fuel a : ℕ) (event : Str) (e : Emitter)
    → Unwatched e
    → tell_removed call domain fuel a event e ≡ (e, finished true)
unfolding tell_removed
tell_removed-none call domain fuel a event e u = rw (u, tell_removed) refl

abbrev Emptied : Str → Emitter × Status → Type 0
Emptied event r = (r.1 ≡ finished true) × (listeners r.0 event ≡ [])

-- With no listener on removeListener, `removeAllListeners` of an event returns, and the event has no
-- listeners then.
pub remove_all-listeners :
    (call : Call) (domain : Domain) (fuel : ℕ) (event : Str) (e : Emitter)
    → Unwatched e
    → ((remove_all call domain fuel event e).1 ≡ finished true)
      × (listeners (remove_all call domain fuel event e).0 event ≡ [])
unfolding remove_all
remove_all-listeners call domain fuel event e u = elim (array_cases e.events event) [
  | inl h ↦ rw (h, remove_all) (refl, listeners-none e event h)
  | inr (a, h) ↦
      rw (h, remove_all)
        (subst (λ r. Emptied event (remove_end event r))
          (sym (tell_removed-none call domain fuel a event e u))
          (unfold remove_end in
            (
              refl,
              listeners-none (record e { events = delete e.events event }) event
                  (array_of-delete e.events event),
            )))
]
