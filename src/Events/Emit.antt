-- ===== src/Events/Emit.antt =====
-- The operations of EventEmitter that call listeners. What a call does is an argument: `call` takes
-- the function, its arguments and the emitter, which the listener may change in any way, and gives the
-- emitter and the error thrown, if one is. `domain` is what the domain of the emitter does with an
-- error, if there is one. A listener's promise is left out.
use jaseci.Prelude.{
  ℕ, zero, suc, ◌+◌, Bool, true, false, not, List, [], ◌∷◌, ◌++◌, Option, none, some, if◌then◌else◌,
  Str, codes, str_eq, get_elem?,
}
use jaseci.Events.{
  Wrapper, Value, name, function, other, Emitter, Status, finished, threw, out_of_fuel, array_of,
  delete, store, add_wrapper, remove_id, remove_last, clean_up, event_names,
}

abbrev pub Call : Type 0
Call = ℕ → List Value → Emitter → Emitter × Option Value

abbrev pub Domain : Type 0
Domain = Option (Value → Emitter → Emitter)

-- The wrapper, if it is one for a single call.
unfoldable pub once_only : Wrapper → List Wrapper
once_only w = if w.once then w ∷ [] else []

-- What the loop over the copied list leaves: the wrappers to remove, the emitter, and how it ended.
abbrev pub Run : Type 0
Run = List Wrapper × Emitter × Status

-- The loop. `nested` is `this.emit("error", ...)`.
unfoldable pub run :
    Call
    → (Value → Emitter → Emitter × Status)
    → List Value
    → List Wrapper
    → List Wrapper
    → Emitter
    → Run
unfolding once_only
run call nested args [] removed e = (removed, e, finished true)
run call nested args (w ∷ copy) removed e =
    let (e1, error) = call w.fn args e in
    elim error [
      | none ↦ run call nested args copy (removed ++ once_only w) e1
      | some err ↦
          if not e1.capture
          then (removed, e1, threw err)
          else let (e2, status) = nested err e1 in
            elim status [
              | finished _ ↦ run call nested args copy (removed ++ once_only w) e2
              | threw x ↦ (removed, e2, threw x)
              | out_of_fuel ↦ (removed, e2, out_of_fuel)
            ]
    ]

-- The removal of the wrappers from the array that is held.
unfoldable pub sweep : ℕ → List Wrapper → Emitter → Emitter
unfolding remove_id store
sweep a [] e = e
sweep a (w ∷ removed) e =
    sweep a removed (record e { arrays = store e.arrays a (remove_id w.id (e.arrays a)) })

unfoldable pub after_run : ℕ → Str → Run → Emitter × Status
unfolding sweep clean_up
after_run a event (removed, e, finished _) = (clean_up a event (sweep a removed e), finished true)
after_run a event (removed, e, threw x) = (e, threw x)
after_run a event (removed, e, out_of_fuel) = (e, out_of_fuel)

-- An event without listeners. `other 0` is the new Error of an "error" without arguments.
unfoldable pub unhandled : Domain → Str → List Value → Emitter → Emitter × Status
unhandled domain event args e =
    let err : Value = elim args [ [] ↦ other 0 | v ∷ _ ↦ v ] in
    if str_eq event (codes "error")
    then elim domain [ none ↦ (e, threw err) | some report ↦ (report err e, finished false) ]
    else (e, finished false)

-- `emit`, where `fuel` bounds how deep errors of listeners of "error" are emitted again.
unfoldable pub emit : Call → Domain → ℕ → Str → List Value → Emitter → Emitter × Status
unfolding run after_run unhandled array_of
emit call domain zero event args e = (e, out_of_fuel)
emit call domain (suc fuel) event args e =
    let nested : Value → Emitter → Emitter × Status =
      λ err. emit call domain fuel (codes "error") (err ∷ []) in
    elim (array_of e.events event) [
      | none ↦ unhandled domain event args e
      | some a ↦ after_run a event (run call nested args (e.arrays a) [] e)
    ]

-- `if (this._events[about] !== undefined) this.emit(about, event, listener)`
unfoldable pub announce : Call → Domain → ℕ → Str → Str → ℕ → Emitter → Emitter × Status
unfolding emit array_of
announce call domain fuel about event fn e = elim (array_of e.events about) [
  | none ↦ (e, finished true)
  | some _ ↦ emit call domain fuel about (name event ∷ function fn ∷ []) e
]

-- `on`, `once`, `prependListener` and `prependOnceListener`, by where and how they add.
unfoldable pub add_listener : Call → Domain → ℕ → Bool → Bool → Str → ℕ → Emitter → Emitter × Status
unfolding announce add_wrapper
add_listener call domain fuel front once event fn e =
    let (e', status) = announce call domain fuel (codes "newListener") event fn e in
    elim status [
      | finished _ ↦ (add_wrapper front once event fn e', finished true)
      | threw x ↦ (e', threw x)
      | out_of_fuel ↦ (e', out_of_fuel)
    ]

-- The end of `off`, after the event removeListener.
unfoldable pub off_end : ℕ → Str → Emitter × Status → Emitter × Status
unfolding clean_up
off_end a event (e, finished _) = (clean_up a event e, finished true)
off_end a event (e, threw x) = (e, threw x)
off_end a event (e, out_of_fuel) = (e, out_of_fuel)

-- `off`: the last wrapper of the listener is removed.
unfoldable pub off : Call → Domain → ℕ → Str → ℕ → Emitter → Emitter × Status
unfolding announce remove_last off_end store array_of
off call domain fuel event fn e = elim (array_of e.events event) [
  | none ↦ (e, finished true)
  | some a ↦ elim (remove_last fn (e.arrays a)) [
    | none ↦ (clean_up a event e, finished true)
    | some rest ↦ off_end a event (
        announce call domain fuel (codes "removeListener") event fn
          (record e { arrays = store e.arrays a rest }))
  ]
]

-- The loop of `removeAllListeners(event)`: the array is read anew in every round.
unfoldable pub remove_loop : Call → Domain → ℕ → ℕ → ℕ → Str → Emitter → Emitter × Status
unfolding emit
remove_loop call domain zero i a event e = (e, out_of_fuel)
remove_loop call domain (suc fuel) i a event e = elim (get_elem? (e.arrays a) i) [
  | none ↦ (e, finished true)
  | some w ↦
      let (e', status) =
        emit call domain fuel (codes "removeListener") (name event ∷ function w.fn ∷ []) e in
      elim status [
        | finished _ ↦ remove_loop call domain fuel (i + 1) a event e'
        | threw x ↦ (e', threw x)
        | out_of_fuel ↦ (e', out_of_fuel)
      ]
]

-- The listeners on removeListener are told of every removal, if there are any.
unfoldable pub tell_removed : Call → Domain → ℕ → ℕ → Str → Emitter → Emitter × Status
unfolding remove_loop array_of
tell_removed call domain fuel a event e = elim (array_of e.events (codes "removeListener")) [
  | none ↦ (e, finished true)
  | some _ ↦ remove_loop call domain fuel 0 a event e
]

unfoldable pub remove_end : Str → Emitter × Status → Emitter × Status
unfolding delete
remove_end event (e, finished _) = (record e { events = delete e.events event }, finished true)
remove_end event (e, threw x) = (e, threw x)
remove_end event (e, out_of_fuel) = (e, out_of_fuel)

-- `removeAllListeners(event)`
unfoldable pub remove_all : Call → Domain → ℕ → Str → Emitter → Emitter × Status
unfolding tell_removed remove_end array_of
remove_all call domain fuel event e = elim (array_of e.events event) [
  | none ↦ (e, finished true)
  | some a ↦ remove_end event (tell_removed call domain fuel a event e)
]

-- The loop over the names of `removeAllListeners()`.
unfoldable pub remove_names : Call → Domain → ℕ → List Str → Emitter → Emitter × Status
unfolding remove_all
remove_names call domain fuel [] e = (e, finished true)
remove_names call domain fuel (event ∷ names) e =
    let rest = remove_names call domain fuel names e in
    let (e', status) = remove_all call domain fuel event e in
    if str_eq event (codes "removeListener") then rest else elim status [
      | finished _ ↦ remove_names call domain fuel names e'
      | threw x ↦ (e', threw x)
      | out_of_fuel ↦ (e', out_of_fuel)
    ]

-- `removeAllListeners()`
unfoldable pub remove_every : Call → Domain → ℕ → Emitter → Emitter × Status
unfolding remove_names delete event_names
remove_every call domain fuel e =
    let (e', status) = remove_names call domain fuel (event_names e) e in
    elim status [
      | finished _ ↦
          (record e' { events = delete e'.events (codes "removeListener") }, finished true)
      | threw x ↦ (e', threw x)
      | out_of_fuel ↦ (e', out_of_fuel)
    ]
