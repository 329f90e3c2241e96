-- ===== src/Diagnostics/Traced.antt =====
-- How a call that is traced by diagnostics_channel.js ends.
use jaseci.Prelude.{ℕ, Bool, true, false, Option, none, some, if◌then◌else◌, ◌≡◌, refl, ap}
use jaseci.Diagnostics.{Value, not_writable, State, Outcome, returned, threw, Call, store, publish}
use jaseci.Diagnostics.Tracing.{
  Channels, context_of, set_result, set_error, publish_error, catch_sync, after_sync, Run,
  trace_sync,
}

set_error-open :
    (c : ℕ) (v : Value) (s : State)
    → (s.contexts c).frozen ≡ false
    → (s' : State) × (set_error c v s ≡ some s')
unfolding set_error
set_error-open c v s h =
    let s' : State = record s {
      contexts = store s.contexts c (record (s.contexts c) { error = some v });
    } in
    (s', ap (λ (b : Bool). if b then none else some s') h)

set_error-frozen :
    (c : ℕ) (v : Value) (s : State) → (s.contexts c).frozen ≡ true → set_error c v s ≡ none
unfolding set_error
set_error-frozen c v s h =
    ap
      (λ (b : Bool).
        if b
        then none
        else some
            (record s { contexts = store s.contexts c (record (s.contexts c) { error = some v }) }))
      h

set_result-open :
    (c : ℕ) (v : Value) (s : State)
    → (s.contexts c).frozen ≡ false
    → (s' : State) × (set_result c v s ≡ some s')
unfolding set_result
set_result-open c v s h =
    let s' : State = record s {
      contexts = store s.contexts c (record (s.contexts c) { result = some v });
    } in
    (s', ap (λ (b : Bool). if b then none else some s') h)

set_result-frozen :
    (c : ℕ) (v : Value) (s : State) → (s.contexts c).frozen ≡ true → set_result c v s ≡ none
unfolding set_result
set_result-frozen c v s h =
    ap
      (λ (b : Bool).
        if b
        then none
        else some (record s {
          contexts = store s.contexts c (record (s.contexts c) { result = some v });
        }))
      h

catch_sync-outcome :
    (call : Call) (t : Channels) (c : ℕ) (e : Value) (s : State) (frozen : Bool)
    → (s.contexts c).frozen ≡ frozen
    → (catch_sync call t c e s).1 ≡ (if frozen then threw not_writable else threw e)
unfolding publish_error catch_sync
catch_sync-outcome call t c e s true h =
    let failed : publish_error call t c e s ≡ none =
      rw (set_error-frozen c e s h, publish_error) refl in
    rw (failed, catch_sync) refl
catch_sync-outcome call t c e s false h =
    let (s', f) = set_error-open c e s h in
    let published : publish_error call t c e s
        ≡ some (publish call t.end c (publish call t.error c s')) =
      rw (f, publish_error) refl in
    rw (published, catch_sync) refl

after_sync-outcome :
    (call : Call) (t : Channels) (c : ℕ) (s : State) (o : Outcome) (frozen : Bool)
    → (s.contexts c).frozen ≡ frozen
    → (after_sync call t c (s, o)).1 ≡ (if frozen then threw not_writable else o)
unfolding after_sync
after_sync-outcome call t c s (threw e) true h = catch_sync-outcome call t c e s true h
after_sync-outcome call t c s (threw e) false h = catch_sync-outcome call t c e s false h
after_sync-outcome call t c s (returned v) true h =
    rw (set_result-frozen c v s h, after_sync) (catch_sync-outcome call t c not_writable s true h)
after_sync-outcome call t c s (returned v) false h =
    let (s', f) = set_result-open c v s h in rw (f, after_sync) refl

-- What the traced function makes of the state after the message on the channel `start`.
abbrev pub ran : Call → Channels → Run → Option ℕ → State → State × Outcome
ran call t run context s = let (s0, c) = context_of context s in run (publish call t.start c s0)

-- `traceSync` ends as the function does, whatever the subscribers do, but where the context is frozen when the
-- function ends: then it throws the TypeError of the assignment to it.
pub trace_sync-outcome :
    (call : Call) (t : Channels) (run : Run) (context : Option ℕ) (s : State)
    → (trace_sync call t run context s).1 ≡ (
        if ((ran call t run context s).0.contexts (context_of context s).1).frozen
        then threw not_writable
        else (ran call t run context s).1)
unfolding trace_sync
trace_sync-outcome call t run context s =
    let c = (context_of context s).1 in
    let r = ran call t run context s in
    after_sync-outcome call t c r.0 r.1 ((r.0.contexts c).frozen) refl
