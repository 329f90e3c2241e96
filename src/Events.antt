-- ===== src/Events.antt =====
-- EventEmitter of jac/js_engine/engine/src/builtins/js/events.js. The arrays of `_events` stand in a
-- store, so that an array that `emit` holds and one that a listener makes are told apart. An event is
-- named by a string that is no name of Object.prototype, of which `_events` inherits.
pub mod Emit
pub mod Lists
pub mod Removal
pub mod Delivery
pub mod Single
pub mod Emitted
use jaseci.Prelude.{
  ℕ, zero, suc, ◌+◌, Bool, true, false, not, ◌&&◌, ◌||◌, List, [], ◌∷◌, ◌++◌, map, reverse, Option,
  none, some, ltb, ◌==◌, if◌then◌else◌, Str, codes, str_eq, length,
}

-- `{ fn, once }`, with the identity that the object has.
pub record Wrapper : Type 0 where
  pub id : ℕ
  pub fn : ℕ
  pub once : Bool

-- An argument of a listener: the name of an event, a function or another value.
pub data Value : Type 0 where
  name : Str → Value
  function : ℕ → Value
  other : ℕ → Value

-- `events` gives the address of the array of an event, `arrays` the store, `next` the next address
-- and identity. `max_listeners` is `none` where `_maxListeners` is undefined; `warnings` are the
-- events and counts that were given to process.emitWarning.
pub record Emitter : Type 0 where
  pub events : List (Str × ℕ)
  pub arrays : ℕ → List Wrapper
  pub warned : ℕ → Bool
  pub warnings : List (Str × ℕ)
  pub next : ℕ
  pub max_listeners : Option ℕ
  pub default_max : ℕ
  pub capture : Bool

-- How an operation ends: with a Boolean, with an error thrown, or, in the model only, without fuel.
pub data Status : Type 0 where
  finished : Bool → Status
  threw : Value → Status
  out_of_fuel : Status

-- `EventEmitter.init` on a new object.
unfoldable pub init : ℕ → Bool → Emitter
init default_max capture = record {
  events = [];
  arrays = λ a. [];
  warned = λ a. false;
  warnings = [];
  next = 0;
  max_listeners = none;
  default_max = default_max;
  capture = capture;
}

-- `this._events[event]`
unfoldable pub array_of : List (Str × ℕ) → Str → Option ℕ
array_of [] event = none
array_of ((k, a) ∷ events) event =
    let rest = array_of events event in if str_eq k event then some a else rest

-- `delete this._events[event]`
unfoldable pub delete : List (Str × ℕ) → Str → List (Str × ℕ)
delete [] event = []
delete ((k, a) ∷ events) event =
    let rest = delete events event in if str_eq k event then rest else (k, a) ∷ rest

-- The store with a new value at an address.
unfoldable pub store {ℓ} : {A : Type ℓ} → (ℕ → A) → ℕ → A → ℕ → A
store arrays a v b = if b == a then v else arrays b

unfoldable pub get_max_listeners : Emitter → ℕ
get_max_listeners e = elim e.max_listeners [ none ↦ e.default_max | some n ↦ n ]

unfoldable pub check_max_listeners : Emitter → Str → ℕ → Emitter
unfolding get_max_listeners store
check_max_listeners e event a =
    let max = get_max_listeners e in
    let count = length (e.arrays a) in
    if max == 0
    then e
    else if ltb max count && not (e.warned a)
    then record e { warned = store e.warned a true; warnings = e.warnings ++ ((event, count) ∷ []) }
    else e

-- `if (this._events[event] === undefined) this._events[event] = []`: the emitter and the address.
unfoldable pub ensure : Emitter → Str → Emitter × ℕ
unfolding array_of store
ensure e event = elim (array_of e.events event) [
  | some a ↦ (e, a)
  | none ↦ (
    record e {
      events = e.events ++ ((event, e.next) ∷ []);
      arrays = store e.arrays e.next [];
      warned = store e.warned e.next false;
      next = e.next + 1;
    },
    e.next,
  )
]

-- What the four functions that add a listener do after the event newListener: `push` or `unshift`.
unfoldable pub add_wrapper : Bool → Bool → Str → ℕ → Emitter → Emitter
unfolding ensure store check_max_listeners
add_wrapper front once event fn e =
    let (e', a) = ensure e event in
    let wrapper : Wrapper = record { id = e'.next; fn = fn; once = once } in
    let list = if front then wrapper ∷ e'.arrays a else e'.arrays a ++ (wrapper ∷ []) in
    check_max_listeners (record e' { arrays = store e'.arrays a list; next = e'.next + 1 }) event a

unfoldable pub listeners : Emitter → Str → List ℕ
unfolding array_of
listeners e event = elim (array_of e.events event) [
  | none ↦ []
  | some a ↦ map (λ (w : Wrapper). w.fn) (e.arrays a)
]

-- The function of the last wrapper for a single call: `var w` is one variable for all rounds of
-- the loop of `rawListeners`, so that every function that it makes calls this one.
unfoldable pub last_single : ℕ → List Wrapper → ℕ
last_single last [] = last
last_single last (w ∷ list) = last_single (if w.once then w.fn else last) list

-- What a raw listener calls, and its property `listener` or itself.
unfoldable pub raw_list : ℕ → List Wrapper → List (ℕ × ℕ)
raw_list last [] = []
raw_list last (w ∷ list) = (if w.once then last else w.fn, w.fn) ∷ raw_list last list

unfoldable pub raw_listeners : Emitter → Str → List (ℕ × ℕ)
unfolding array_of last_single raw_list
raw_listeners e event = elim (array_of e.events event) [
  | none ↦ []
  | some a ↦ raw_list (last_single 0 (e.arrays a)) (e.arrays a)
]

unfoldable pub listener_count : Emitter → Str → ℕ
unfolding array_of
listener_count e event = elim (array_of e.events event) [ none ↦ 0 | some a ↦ length (e.arrays a) ]

unfoldable pub event_names : Emitter → List Str
event_names e = map (λ (p : Str × ℕ). p.0) e.events

-- `setMaxListeners` with a number that is not negative.
unfoldable pub set_max_listeners : ℕ → Emitter → Emitter
set_max_listeners n e = record e { max_listeners = some n }

-- `list.splice(i, 1)` at the first wrapper that has the identity.
unfoldable pub remove_id : ℕ → List Wrapper → List Wrapper
remove_id id [] = []
remove_id id (w ∷ list) = let rest = remove_id id list in if w.id == id then list else w ∷ rest

-- At the last wrapper of the function; `none` where there is none.
unfoldable pub remove_last : ℕ → List Wrapper → Option (List Wrapper)
remove_last fn [] = none
remove_last fn (w ∷ list) = elim (remove_last fn list) [
  | some rest ↦ some (w ∷ rest)
  | none ↦ if w.fn == fn then some list else none
]

-- `if (list.length === 0) delete this._events[event]`, for the array that is held.
unfoldable pub clean_up : ℕ → Str → Emitter → Emitter
unfolding delete
clean_up a event e =
    if length (e.arrays a) == 0 then record e { events = delete e.events event } else e
