-- ===== src/Events/Delivery.antt =====
-- Which listeners `emit` of an EventEmitter calls, and what is left of them.
use jaseci.Prelude.{
  ℕ, suc, true, List, [], ◌∷◌, ◌++◌, none, some, Str, codes, ◌≡◌, refl, ap, sym, ◌∙◌, append-nil,
  append_assoc,
}
use jaseci.Events.{Wrapper, Value, Emitter, Status, finished, array_of, clean_up}
use jaseci.Events.Emit.{Call, Domain, once_only, run, sweep, after_run, emit}

-- The wrappers for a single call.
abbrev pub singles : List Wrapper → List Wrapper
singles [] = []
singles (w ∷ list) = once_only w ++ singles list

-- The emitter after the calls of the listeners, in order, each on what the one before it left.
abbrev pub called : Call → List Value → Emitter → List Wrapper → Emitter
called call args e [] = e
called call args e (w ∷ list) = called call args (call w.fn args e).0 list

-- No listener throws.
abbrev pub Returns : Call → Type 0
Returns call = (fn : ℕ) (args : List Value) (e : Emitter) → (call fn args e).1 ≡ none

run-Returns :
    (call : Call) (nested : Value → Emitter → Emitter × Status) (args : List Value)
    → Returns call
    → (copy removed : List Wrapper) (e : Emitter)
    → run call nested args copy removed e
      ≡ (removed ++ singles copy, called call args e copy, finished true)
unfolding run
run-Returns call nested args h [] removed e =
    ap (λ (l : List Wrapper). (l, e, finished true)) (sym (append-nil removed))
run-Returns call nested args h (w ∷ copy) removed e =
    rw (h w.fn args e, run)
      (run-Returns call nested args h copy (removed ++ once_only w) (call w.fn args e).0
        ∙ ap (λ (l : List Wrapper). (l, called call args (call w.fn args e).0 copy, finished true))
            (append_assoc removed (once_only w) (singles copy)))

-- If no listener throws, `emit` calls the listeners that the event had before, in their order and
-- each once, whatever they do to the emitter. Then it takes the wrappers for a single call out of the
-- array that it started from, deletes the event if that is empty, and returns true.
pub emit-called :
    (call : Call) (domain : Domain) (fuel : ℕ) (event : Str) (args : List Value) (e : Emitter)
    (a : ℕ)
    → Returns call
    → array_of e.events event ≡ some a
    → emit call domain (suc fuel) event args e ≡ (
      clean_up a event (sweep a (singles (e.arrays a)) (called call args e (e.arrays a))),
      finished true,
    )
unfolding emit
emit-called call domain fuel event args e a h k =
    rw (k, emit)
      (ap (after_run a event) (
          run-Returns call (λ err. emit call domain fuel (codes "error") (err ∷ [])) args h
            (e.arrays a) [] e)
        ∙ (unfold after_run in refl))
