-- ===== src/Diagnostics/Tracing.antt =====
-- TracingChannel of jac/js_engine/engine/src/builtins/js/diagnostics_channel.js: five channels, and the
-- messages that are published on them around the call of a function.
use jaseci.Prelude.{ℕ, ◌+◌, Bool, false, if◌then◌else◌, ◌||◌, ◌++◌, Option, none, some, Str, codes}
use jaseci.Diagnostics.{
  Name, Value, not_writable, State, Outcome, returned, threw, Call, store, get_or_make,
  has_subscribers, subscribe, unsubscribe, publish,
}

-- The five channels, by their addresses.
pub record Channels : Type 0 where
  pub start : ℕ
  pub end : ℕ
  pub async_start : ℕ
  pub async_end : ℕ
  pub error : ℕ

-- The properties of an object that has, for each channel, something or nothing.
pub record Five : Type 0 where
  pub start : Option ℕ
  pub end : Option ℕ
  pub async_start : Option ℕ
  pub async_end : Option ℕ
  pub error : Option ℕ

-- The argument `nameOrChannels`.
pub data Source : Type 0 where
  by_name : Str → Source
  by_channels : Five → Source
  neither : Source

-- `channel(name)` with a string
unfoldable pub channel_string : Str → State → State × ℕ
unfolding get_or_make
channel_string key s = get_or_make (Name.string key) key s

-- `given || channel(key)`
unfoldable pub given_or : Option ℕ → Str → State → State × ℕ
unfolding channel_string
given_or (some a) key s = (s, a)
given_or none key s = channel_string key s

unfoldable pub five_channels : Five → Str → State → State × Channels
unfolding given_or
five_channels given name s =
    let prefix = codes "tracing:" ++ name in
    let (s1, a) = given_or given.start (prefix ++ codes ":start") s in
    let (s2, b) = given_or given.end (prefix ++ codes ":end") s1 in
    let (s3, c) = given_or given.async_start (prefix ++ codes ":asyncStart") s2 in
    let (s4, d) = given_or given.async_end (prefix ++ codes ":asyncEnd") s3 in
    let (s5, e) = given_or given.error (prefix ++ codes ":error") s4 in
    (s5, record { start = a; end = b; async_start = c; async_end = d; error = e })

abbrev pub no_channels : Five
no_channels = record {
  start = none;
  end = none;
  async_start = none;
  async_end = none;
  error = none;
}

-- `new TracingChannel(nameOrChannels)`; without channels where it throws the TypeError
unfoldable pub tracing_channel : Source → State → State × Option Channels
unfolding five_channels
tracing_channel (by_name name) s = let (s', t) = five_channels no_channels name s in (s', some t)
tracing_channel (by_channels given) s =
    let (s', t) = five_channels given (codes "anon") s in (s', some t)
tracing_channel neither s = (s, none)

-- The getter `hasSubscribers` of a TracingChannel
unfoldable pub any_subscribers : Channels → State → Bool
unfolding has_subscribers
any_subscribers t s =
    has_subscribers t.start s
    || has_subscribers t.end s
    || has_subscribers t.async_start s
    || has_subscribers t.async_end s
    || has_subscribers t.error s

-- `if (typeof handler === 'function') channel.subscribe(handler)`
unfoldable pub subscribe_at : ℕ → Option ℕ → State → State
unfolding subscribe
subscribe_at a none s = s
subscribe_at a (some fn) s = subscribe a fn s

-- `TracingChannel.prototype.subscribe` with an object, whose properties that are no functions are left
-- out
unfoldable pub subscribe_handlers : Channels → Five → State → State
unfolding subscribe_at
subscribe_handlers t h s =
    let s1 = subscribe_at t.start h.start s in
    let s2 = subscribe_at t.end h.end s1 in
    let s3 = subscribe_at t.async_start h.async_start s2 in
    let s4 = subscribe_at t.async_end h.async_end s3 in subscribe_at t.error h.error s4

-- `if (typeof handler === 'function') ok = channel.unsubscribe(handler) || ok`
unfoldable pub unsubscribe_at : ℕ → Option ℕ → State → Bool → State × Bool
unfolding unsubscribe
unsubscribe_at a none s ok = (s, ok)
unsubscribe_at a (some fn) s ok = let (s', done) = unsubscribe a fn s in (s', done || ok)

-- `TracingChannel.prototype.unsubscribe` with an object
unfoldable pub unsubscribe_handlers : Channels → Five → State → State × Bool
unfolding unsubscribe_at
unsubscribe_handlers t h s =
    let (s1, ok1) = unsubscribe_at t.start h.start s false in
    let (s2, ok2) = unsubscribe_at t.end h.end s1 ok1 in
    let (s3, ok3) = unsubscribe_at t.async_start h.async_start s2 ok2 in
    let (s4, ok4) = unsubscribe_at t.async_end h.async_end s3 ok3 in
    unsubscribe_at t.error h.error s4 ok4

-- `context || {}`, for a context that is an object or is missing
unfoldable pub context_of : Option ℕ → State → State × ℕ
unfolding store
context_of (some c) s = (s, c)
context_of none s = (
  record s {
    contexts = store s.contexts s.next (record { frozen = false; result = none; error = none });
    next = s.next + 1;
  },
  s.next,
)

-- `context.result = value` and `context.error = value`; `none` where the assignment throws
unfoldable pub set_result : ℕ → Value → State → Option State
unfolding store
set_result c v s =
    if (s.contexts c).frozen
    then none
    else some
        (record s { contexts = store s.contexts c (record (s.contexts c) { result = some v }) })

unfoldable pub set_error : ℕ → Value → State → Option State
unfolding store
set_error c v s =
    if (s.contexts c).frozen
    then none
    else some
        (record s { contexts = store s.contexts c (record (s.contexts c) { error = some v }) })

-- `context.error = err; this.error.publish(context); this.end.publish(context)`
unfoldable pub publish_error : Call → Channels → ℕ → Value → State → Option State
unfolding set_error publish
publish_error call t c e s = elim (set_error c e s) [
  | none ↦ none
  | some s' ↦ some (publish call t.end c (publish call t.error c s'))
]

-- The `catch` of `traceSync`
unfoldable pub catch_sync : Call → Channels → ℕ → Value → State → State × Outcome
unfolding publish_error
catch_sync call t c e s = elim (publish_error call t c e s) [
  | none ↦ (s, threw not_writable)
  | some s' ↦ (s', threw e)
]

-- What `traceSync` does with the outcome of the function. The assignment of the result is in the `try`.
unfoldable pub after_sync : Call → Channels → ℕ → State × Outcome → State × Outcome
unfolding set_result publish catch_sync
after_sync call t c (s, returned v) = elim (set_result c v s) [
  | none ↦ catch_sync call t c not_writable s
  | some s' ↦ (publish call t.end c s', returned v)
]
after_sync call t c (s, threw e) = catch_sync call t c e s

-- A function with its `this` and its arguments.
abbrev pub Run : Type 0
Run = State → State × Outcome

unfoldable pub trace_sync : Call → Channels → Run → Option ℕ → State → State × Outcome
unfolding context_of publish after_sync
trace_sync call t run context s =
    let (s0, c) = context_of context s in after_sync call t c (run (publish call t.start c s0))

-- What `tracePromise` returns: a promise that is rejected, or the promise of a value with the two
-- reactions of the context; or what it throws.
pub data Traced : Type 0 where
  thrown : Value → Traced
  rejected : Value → Traced
  chained : Value → ℕ → Traced

unfoldable pub after_promise : Call → Channels → ℕ → State × Outcome → State × Traced
unfolding publish publish_error
after_promise call t c (s, returned v) = (publish call t.end c s, chained v c)
after_promise call t c (s, threw e) = elim (publish_error call t c e s) [
  | none ↦ (s, thrown not_writable)
  | some s' ↦ (s', rejected e)
]

unfoldable pub trace_promise : Call → Channels → Run → Option ℕ → State → State × Traced
unfolding context_of publish after_promise
trace_promise call t run context s =
    let (s0, c) = context_of context s in after_promise call t c (run (publish call t.start c s0))

-- The reaction to the value or to the reason of the promise.
unfoldable pub settle : Call → Channels → ℕ → Outcome → State → State × Outcome
unfolding set_result set_error publish
settle call t c (returned v) s = elim (set_result c v s) [
  | none ↦ (s, threw not_writable)
  | some s' ↦ (publish call t.async_end c (publish call t.async_start c s'), returned v)
]
settle call t c (threw e) s = elim (set_error c e s) [
  | none ↦ (s, threw not_writable)
  | some s' ↦ (
    publish call t.async_end c (publish call t.error c (publish call t.async_start c s')),
    threw e,
  )
]
