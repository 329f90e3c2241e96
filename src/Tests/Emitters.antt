-- ===== src/Tests/Emitters.antt =====
-- Tests of events.js.
use jaseci.Prelude.{ℕ, ◌≡◌, refl, true, false, Bool, List, [], ◌∷◌, Option, none, some, codes, Str}
use jaseci.Events.{
  other, Emitter, finished, init, add_wrapper, listeners, array_of, raw_listeners,
  get_max_listeners, ensure, check_max_listeners, store,
}
use jaseci.Events.Emit.{Call, off, emit}
use jaseci.Events.Lists.{fns}
use jaseci.Events.Removal.{Unwatched, without_last, off-listeners}
use jaseci.Events.Delivery.{called}
use jaseci.Events.Emitted.{IsEmitted, emit-IsEmitted}
use jaseci.Events.Single.{lasting, emit-lasting}

abbrev event : Str
event = codes "a"

-- Listeners that do nothing.
abbrev quiet : Call
quiet = λ fn args e. (e, none)

-- A listener for a single call, and one for all.
two : Emitter
two = add_wrapper false false event 2 (add_wrapper false true event 1 (init 10 false))

two-array : array_of two.events event ≡ some 0
unfolding two array_of add_wrapper init jaseci.Prelude.str_eq
two-array = refl

two-Unwatched : Unwatched two
unfolding two add_wrapper init ensure check_max_listeners get_max_listeners store array_of
    jaseci.Prelude.str_eq
two-Unwatched = refl

-- Both functions that `rawListeners` makes call the listener that was added last.
raw_listeners-two :
    raw_listeners (add_wrapper false true event 3 two) event ≡ (3, 1) ∷ (2, 2) ∷ (3, 3) ∷ []
unfolding two raw_listeners add_wrapper init jaseci.Prelude.str_eq
raw_listeners-two = refl

emit-two : listeners (emit quiet none 1 event [] two).0 event ≡ 2 ∷ []
unfolding two listeners emit add_wrapper init jaseci.Prelude.str_eq
emit-two = refl

off-listeners_example :
    ((off quiet none 1 event 1 two).1 ≡ finished true)
    × (listeners (off quiet none 1 event 1 two).0 event ≡ without_last 1 (listeners two event))
off-listeners_example = off-listeners quiet none 1 event 1 two two-Unwatched

emit-IsEmitted_example :
    IsEmitted
      (two.arrays 0)
      (called quiet (other 7 ∷ []) two (two.arrays 0))
      event
      0
      (emit quiet none 1 event (other 7 ∷ []) two)
unfolding two add_wrapper init jaseci.Prelude.str_eq
emit-IsEmitted_example =
    emit-IsEmitted quiet none 0 event (other 7 ∷ []) two 0 (λ fn args e. refl) two-array
      ((refl, tt), (tt, tt))

emit-lasting_example :
    listeners (emit quiet none 1 event [] two).0 event ≡ fns (lasting (two.arrays 0))
unfolding two add_wrapper init jaseci.Prelude.str_eq
emit-lasting_example =
    emit-lasting quiet none 0 event [] two 0 (λ fn args e. refl) two-array ((refl, tt), (tt, tt))
