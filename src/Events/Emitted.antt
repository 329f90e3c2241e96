-- ===== src/Events/Emitted.antt =====
-- What an EventEmitter is after `emit`.
use jaseci.Prelude.{
  ℕ, suc, Bool, true, false, ◌&&◌, ◌||◌, List, [], ◌∷◌, Option, none, some, ◌==◌, if◌then◌else◌,
  if_both, Str, str_eq, str_eq_iff, length, ◌≡◌, ◌≢◌, refl, ap, sym, subst, ◌∙◌, Bool-cases, ◌⊎◌,
  inl, inr, eq→==, ==→eq, ne→==, All, arith,
}
use jaseci.Events.{
  Wrapper, Value, Emitter, Status, finished, array_of, delete, store, remove_id, clean_up,
}
use jaseci.Events.Emit.{Call, Domain, sweep, emit}
use jaseci.Events.Removal.{array_of-delete}
use jaseci.Events.Delivery.{singles, called, Returns, emit-called}
use jaseci.Events.Single.{Ids, removes, sweep-arrays, singles-at}

-- A wrapper is one for a single call that stands in the list.
abbrev pub is_spent : List Wrapper → Wrapper → Bool
is_spent [] v = false
is_spent (w ∷ start) v = (w.once && w.id == v.id) || is_spent start v

-- The wrappers that are not.
abbrev pub unspent : List Wrapper → List Wrapper → List Wrapper
unspent start [] = []
unspent start (v ∷ list) = if is_spent start v then unspent start list else v ∷ unspent start list

unspent-agree :
    (s t list : List Wrapper)
    → All (λ (v : Wrapper). is_spent s v ≡ is_spent t v) list
    → unspent s list ≡ unspent t list
unspent-agree s t [] h = refl
unspent-agree s t (v ∷ list) h =
    ap (λ (b : Bool). if b then unspent s list else v ∷ unspent s list) h.0
    ∙ ap (λ (rest : List Wrapper). if is_spent t v then rest else v ∷ rest)
        (unspent-agree s t list h.1)

-- A wrapper that is not the first of the list, or one for more than one call.
spent-next :
    (w v : Wrapper) (start : List Wrapper)
    → (w.once && w.id == v.id) ≡ false
    → is_spent (w ∷ start) v ≡ is_spent start v
spent-next w v start h = ap (λ (b : Bool). b || is_spent start v) h

lasting_next :
    (w : Wrapper) (start list : List Wrapper)
    → w.once ≡ false
    → All (λ (v : Wrapper). is_spent (w ∷ start) v ≡ is_spent start v) list
lasting_next w start [] h = tt
lasting_next w start (v ∷ list) h =
    (spent-next w v start (ap (λ (b : Bool). b && w.id == v.id) h), lasting_next w start list h)

and_false : (a b : Bool) → b ≡ false → (a && b) ≡ false
and_false true b h = h
and_false false b h = refl

apart_next :
    (w : Wrapper) (start list : List Wrapper)
    → All (λ (v : Wrapper). (w.id == v.id) ≡ false) list
    → All (λ (v : Wrapper). is_spent (w ∷ start) v ≡ is_spent start v) list
apart_next w start [] h = tt
apart_next w start (v ∷ list) h =
    (spent-next w v start (and_false w.once (w.id == v.id) h.0), apart_next w start list h.1)

same_apart :
    (i j : ℕ) (list : List Wrapper)
    → i ≡ j
    → All (λ (v : Wrapper). (i == v.id) ≡ false) list
    → All (λ (v : Wrapper). (j == v.id) ≡ false) list
same_apart i j list e = subst (λ (k : ℕ). All (λ (v : Wrapper). (k == v.id) ≡ false) list) e

-- Taking one wrapper out first.
unspent-remove_id :
    (w : Wrapper) (start list : List Wrapper)
    → w.once ≡ true
    → Ids list
    → unspent start (remove_id w.id list) ≡ unspent (w ∷ start) list
unfolding remove_id
unspent-remove_id w start [] o h = refl
unspent-remove_id w start (v ∷ list) o h = elim (Bool-cases (v.id == w.id)) [
  | inl e ↦
      let same : v.id ≡ w.id = ==→eq v.id w.id e in
      let taken : is_spent (w ∷ start) v ≡ true =
        ap (λ (b : Bool). (b && w.id == v.id) || is_spent start v) o
        ∙ ap (λ (b : Bool). b || is_spent start v) (eq→== w.id v.id (sym same)) in
      rw (e, taken)
        (sym (
          unspent-agree (w ∷ start) start list
            (apart_next w start list (same_apart v.id w.id list same h.0))))
  | inr e ↦
      let other : (w.id == v.id) ≡ false =
        ne→== w.id v.id (λ f. absurd (cc (eq→== v.id w.id (sym f)))) in
      let kept = spent-next w v start (and_false w.once (w.id == v.id) other) in
      let rest = unspent-remove_id w start list o h.1 in
      rw e (
        ap (λ (l : List Wrapper). if is_spent start v then l else v ∷ l) rest
        ∙ ap (λ (b : Bool). if b then unspent (w ∷ start) list else v ∷ unspent (w ∷ start) list)
            (sym kept))
]

remove_id-All :
    (P : Wrapper → Type 0) (i : ℕ) (list : List Wrapper) → All P list → All P (remove_id i list)
unfolding remove_id
remove_id-All P i [] h = tt
remove_id-All P i (v ∷ list) h =
    if_both (All P) (v.id == i) list (v ∷ remove_id i list) h.1 (h.0, remove_id-All P i list h.1)

remove_id-Ids : (i : ℕ) (list : List Wrapper) → Ids list → Ids (remove_id i list)
unfolding remove_id
remove_id-Ids i [] h = tt
remove_id-Ids i (v ∷ list) h =
    if_both Ids (v.id == i) list (v ∷ remove_id i list) h.1
      (remove_id-All _ i list h.0, remove_id-Ids i list h.1)

unspent-nil : (list : List Wrapper) → unspent [] list ≡ list
unspent-nil [] = refl
unspent-nil (v ∷ list) = ap (v ∷◌) (unspent-nil list)

removes-unspent :
    (start list : List Wrapper) → Ids list → removes (singles start) list ≡ unspent start list
removes-unspent [] list h = sym (unspent-nil list)
removes-unspent (w ∷ start) list h = elim (Bool-cases w.once) [
  | inl o ↦
      ap (λ (l : List Wrapper). removes l list) (singles-at true w start o)
      ∙ removes-unspent start (remove_id w.id list) (remove_id-Ids w.id list h)
      ∙ unspent-remove_id w start list o h
  | inr o ↦
      ap (λ (l : List Wrapper). removes l list) (singles-at false w start o)
      ∙ removes-unspent start list h
      ∙ sym (unspent-agree (w ∷ start) start list (lasting_next w start list o))
]

sweep-other :
    (a : ℕ) (removed : List Wrapper) (e : Emitter) (b : ℕ)
    → b ≢ a
    → (sweep a removed e).arrays b ≡ e.arrays b
unfolding sweep
sweep-other a [] e b d = refl
sweep-other a (w ∷ removed) e b d =
    sweep-other a removed (record e { arrays = store e.arrays a (remove_id w.id (e.arrays a)) }) b d
    ∙ (unfold store in rw (ne→== b a d) refl)

array_of-delete-other :
    (events : List (Str × ℕ)) (event name : Str)
    → str_eq event name ≡ false
    → array_of (delete events event) name ≡ array_of events name
unfolding array_of delete
array_of-delete-other [] event name h = refl
array_of-delete-other ((k, a) ∷ events) event name h = elim (Bool-cases (str_eq k event)) [
  | inl e ↦
      let other : str_eq k name ≡ false =
        ap (λ (x : Str). str_eq x name) ((str_eq_iff k event).0 e) ∙ h in
      rw (e, other) (array_of-delete-other events event name h)
  | inr e ↦ rw e (
      ap (λ (o : Option ℕ). if str_eq k name then some a else o)
        (array_of-delete-other events event name h))
]

abbrev pub is_empty : List Wrapper → Bool
is_empty [] = true
is_empty (w ∷ list) = false

is_empty-length : (list : List Wrapper) → (length list == 0) ≡ is_empty list
is_empty-length [] = refl
is_empty-length (w ∷ list) = ne→== (length (w ∷ list)) 0 (λ e. absurd (omega arith))

clean_up-arrays : (a : ℕ) (event : Str) (e : Emitter) → (clean_up a event e).arrays ≡ e.arrays
unfolding clean_up
clean_up-arrays a event e =
    if_both (λ (x : Emitter). x.arrays ≡ e.arrays) (length (e.arrays a) == 0)
      (record e { events = delete e.events event }) e refl refl

clean_up-events :
    (a : ℕ) (event name : Str) (e : Emitter)
    → array_of (clean_up a event e).events name
      ≡ (if str_eq event name && is_empty (e.arrays a) then none else array_of e.events name)
unfolding clean_up
clean_up-events a event name e =
    ap
      (λ (b : Bool).
        array_of (if b then record e { events = delete e.events event } else e).events name)
      (is_empty-length (e.arrays a))
    ∙ by_tests (is_empty (e.arrays a)) (str_eq event name) refl
  where
    by_tests :
        (b s : Bool)
        → str_eq event name ≡ s
        → array_of (if b then record e { events = delete e.events event } else e).events name
          ≡ (if s && b then none else array_of e.events name)
    by_tests true true f =
        ap (array_of (delete e.events event)) (sym ((str_eq_iff event name).0 f))
        ∙ array_of-delete e.events event
    by_tests true false f = array_of-delete-other e.events event name f
    by_tests false true f = refl
    by_tests false false f = refl

-- `after` is what `called` leaves. Then `emit` returns true; the array of the event has the wrappers that it
-- has in `after`, less those for a single call that it had before; the other arrays are as in `after`; and so
-- are the arrays of events, but that the event itself has none if its array is empty.
pub record IsEmitted (before : List Wrapper) (after : Emitter) (event : Str) (a : ℕ)
    (r : Emitter × Status) : Type 0 where
  pub status : r.1 ≡ finished true
  pub arrays :
      (b : ℕ) → r.0.arrays b ≡ (if b == a then unspent before (after.arrays a) else after.arrays b)
  pub events :
      (name : Str)
      → array_of r.0.events name ≡ (
          if str_eq event name && is_empty (unspent before (after.arrays a))
          then none
          else array_of after.events name)

-- If no listener throws, `emit` calls the listeners that the event had before, in their order and each once,
-- whatever they do to the emitter, and returns true. Then the array that it started from has lost the wrappers
-- for a single call that it had at the start, and no others, if no two wrappers in it are the same object; the
-- event is deleted if the array is empty; other arrays and events are what the listeners left.
pub emit-IsEmitted :
    (call : Call) (domain : Domain) (fuel : ℕ) (event : Str) (args : List Value) (e : Emitter)
    (a : ℕ)
    → Returns call
    → array_of e.events event ≡ some a
    → Ids ((called call args e (e.arrays a)).arrays a)
    → IsEmitted
        (e.arrays a)
        (called call args e (e.arrays a))
        event
        a
        (emit call domain (suc fuel) event args e)
emit-IsEmitted call domain fuel event args e a h k ids =
    let before = e.arrays a in
    let after = called call args e before in
    let swept = sweep a (singles before) after in
    let (left, names) = sweep-arrays a (singles before) after in
    let array : swept.arrays a ≡ unspent before (after.arrays a) =
      left ∙ removes-unspent before (after.arrays a) ids in
    let kept = clean_up-arrays a event swept in
    subst (IsEmitted before after event a) (sym (emit-called call domain fuel event args e a h k))
      (record {
        status = refl;
        arrays =
            λ b. ap (λ (s : ℕ → List Wrapper). s b) kept ∙ by_place b (Bool-cases (b == a)) array;
        events = λ name.
            clean_up-events a event name swept
            ∙ ap
                (λ (l : List Wrapper).
                  if str_eq event name && is_empty l then none else array_of swept.events name)
                array
            ∙ ap
                (λ (l : List (Str × ℕ)).
                  if str_eq event name && is_empty (unspent before (after.arrays a))
                  then none
                  else array_of l name)
                names;
      })
  where
    by_place :
        (b : ℕ)
        → ((b == a) ≡ true) ⊎ ((b == a) ≡ false)
        → (sweep a (singles (e.arrays a)) (called call args e (e.arrays a))).arrays a
          ≡ unspent (e.arrays a) ((called call args e (e.arrays a)).arrays a)
        → (sweep a (singles (e.arrays a)) (called call args e (e.arrays a))).arrays b ≡ (
            if b == a
            then unspent (e.arrays a) ((called call args e (e.arrays a)).arrays a)
            else (called call args e (e.arrays a)).arrays b)
    by_place b (inl f) array =
        ap (sweep a (singles (e.arrays a)) (called call args e (e.arrays a))).arrays (==→eq b a f)
        ∙ array
        ∙ (rw f refl)
    by_place b (inr f) array =
        sweep-other a (singles (e.arrays a)) (called call args e (e.arrays a)) b
          (λ g. absurd (cc (eq→== b a g, f)))
        ∙ (rw f refl)
