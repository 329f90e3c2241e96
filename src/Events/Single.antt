-- ===== src/Events/Single.antt =====
-- Listeners for a single call: what an `emit` of an EventEmitter leaves of the list of its event.
use jaseci.Prelude.{
  ℕ, suc, Bool, true, false, List, [], ◌∷◌, ◌++◌, Option, none, some, ◌==◌, if◌then◌else◌, Str, ◌≡◌,
  refl, ap, sym, ◌∙◌, Bool-cases, inl, inr, eq→==, All, All-append, append_assoc,
}
use jaseci.Events.{Wrapper, Value, Emitter, Status, array_of, store, listeners, remove_id, clean_up}
use jaseci.Events.Emit.{Call, Domain, once_only, sweep, emit}
use jaseci.Events.Lists.{store-same, fns}
use jaseci.Events.Removal.{clean_up-listeners}
use jaseci.Events.Delivery.{singles, called, Returns, emit-called}

-- The wrappers for more than one call.
abbrev pub lasting : List Wrapper → List Wrapper
lasting [] = []
lasting (w ∷ list) = if w.once then lasting list else w ∷ lasting list

-- No two wrappers are the same object.
abbrev pub Ids : List Wrapper → Type 0
Ids [] = Unit
Ids (w ∷ list) = All (λ (v : Wrapper). (w.id == v.id) ≡ false) list × Ids list

abbrev pub removes : List Wrapper → List Wrapper → List Wrapper
removes [] list = list
removes (w ∷ removed) list = removes removed (remove_id w.id list)

pub sweep-arrays :
    (a : ℕ) (removed : List Wrapper) (e : Emitter)
    → ((sweep a removed e).arrays a ≡ removes removed (e.arrays a))
      × ((sweep a removed e).events ≡ e.events)
unfolding sweep
sweep-arrays a [] e = (refl, refl)
sweep-arrays a (w ∷ removed) e =
    let list = remove_id w.id (e.arrays a) in
    let (p, q) = sweep-arrays a removed (record e { arrays = store e.arrays a list }) in
    (p ∙ ap (removes removed) (store-same e.arrays a list), q)

-- No wrapper of the front is one of the list.
abbrev Apart : List Wrapper → List Wrapper → Type 0
Apart front = All (λ (w : Wrapper). All (λ (v : Wrapper). (v.id == w.id) ≡ false) front)

remove_id-at :
    (front : List Wrapper) (w : Wrapper) (list : List Wrapper)
    → All (λ (v : Wrapper). (v.id == w.id) ≡ false) front
    → remove_id w.id (front ++ w ∷ list) ≡ front ++ list
unfolding remove_id
remove_id-at [] w list h = rw (eq→== w.id w.id refl) refl
remove_id-at (v ∷ front) w list h = rw (h.0, remove_id-at front w list h.1) refl

Apart-next :
    (front list : List Wrapper) (w : Wrapper)
    → Apart front list
    → All (λ (v : Wrapper). (w.id == v.id) ≡ false) list
    → Apart (front ++ w ∷ []) list
Apart-next front [] w h k = tt
Apart-next front (v ∷ list) w h k =
    (All-append _ front (w ∷ []) h.0 (k.0, tt), Apart-next front list w h.1 k.1)

pub singles-at :
    (b : Bool) (w : Wrapper) (list : List Wrapper)
    → w.once ≡ b
    → singles (w ∷ list) ≡ (if b then w ∷ [] else []) ++ singles list
unfolding once_only
singles-at b w list o = ap (λ (c : Bool). (if c then w ∷ [] else []) ++ singles list) o

lasting-at :
    (b : Bool) (w : Wrapper) (list : List Wrapper)
    → w.once ≡ b
    → lasting (w ∷ list) ≡ (if b then lasting list else w ∷ lasting list)
lasting-at b w list o = ap (λ (c : Bool). if c then lasting list else w ∷ lasting list) o

removes-singles :
    (front list : List Wrapper)
    → Ids list
    → Apart front list
    → removes (singles list) (front ++ list) ≡ front ++ lasting list
removes-singles front [] h k = refl
removes-singles front (w ∷ list) h k = elim (Bool-cases w.once) [
  | inl o ↦
      ap (λ (l : List Wrapper). removes l (front ++ w ∷ list)) (singles-at true w list o)
      ∙ ap (removes (singles list)) (remove_id-at front w list k.0)
      ∙ removes-singles front list h.1 k.1
      ∙ ap (λ (l : List Wrapper). front ++ l) (sym (lasting-at true w list o))
  | inr o ↦
      ap (λ (l : List Wrapper). removes l (front ++ w ∷ list)) (singles-at false w list o)
      ∙ ap (removes (singles list)) (sym (append_assoc front (w ∷ []) list))
      ∙ removes-singles (front ++ w ∷ []) list h.1 (Apart-next front list w k.1 h.0)
      ∙ append_assoc front (w ∷ []) (lasting list)
      ∙ ap (λ (l : List Wrapper). front ++ l) (sym (lasting-at false w list o))
]

Apart-nil : (list : List Wrapper) → Apart [] list
Apart-nil [] = tt
Apart-nil (w ∷ list) = (tt, Apart-nil list)

-- A listener that changes nothing and returns.
abbrev pub Quiet : Call → Type 0
Quiet call = (fn : ℕ) (args : List Value) (e : Emitter) → call fn args e ≡ (e, none)

Quiet-Returns : (call : Call) → Quiet call → Returns call
Quiet-Returns call h fn args e = ap (λ (r : Emitter × Option Value). r.1) (h fn args e)

called-Quiet :
    (call : Call) (args : List Value) (e : Emitter) (list : List Wrapper)
    → Quiet call
    → called call args e list ≡ e
called-Quiet call args e [] h = refl
called-Quiet call args e (w ∷ list) h =
    ap (λ (r : Emitter × Option Value). called call args r.0 list) (h w.fn args e)
    ∙ called-Quiet call args e list h

-- If the listeners return and leave the emitter alone, and no two wrappers of the event are the same
-- object, the listeners for a single call are gone after `emit`, and the others stay in their order.
pub emit-lasting :
    (call : Call) (domain : Domain) (fuel : ℕ) (event : Str) (args : List Value) (e : Emitter)
    (a : ℕ)
    → Quiet call
    → array_of e.events event ≡ some a
    → Ids (e.arrays a)
    → listeners (emit call domain (suc fuel) event args e).0 event ≡ fns (lasting (e.arrays a))
emit-lasting call domain fuel event args e a q h ids =
    let list = e.arrays a in
    let (left, names) = sweep-arrays a (singles list) e in
    ap (λ (r : Emitter × Status). listeners r.0 event)
      (emit-called call domain fuel event args e a (Quiet-Returns call q) h)
    ∙ ap (λ (x : Emitter). listeners (clean_up a event (sweep a (singles list) x)) event)
        (called-Quiet call args e list q)
    ∙ clean_up-listeners (sweep a (singles list) e) event a
        (ap (λ (l : List (Str × ℕ)). array_of l event) names ∙ h)
    ∙ ap fns (left ∙ removes-singles [] list ids (Apart-nil list))
