-- ===== src/Diagnostics/Callbacks.antt =====
-- `traceCallback` of jac/js_engine/engine/src/builtins/js/diagnostics_channel.js.
use jaseci.Prelude.{
  ℕ, zero, suc, ◌-◌, Bool, true, false, List, [], ◌∷◌, Option, none, some, if◌then◌else◌, length,
  get_elem?,
}
use jaseci.Diagnostics.{
  Value, undefined, falsy, truthy, invalid_arg_type, not_writable, State, Outcome, returned, threw,
  Call, publish,
}
use jaseci.Diagnostics.Tracing.{Channels, context_of, set_result, set_error, publish_error}

-- An argument of the traced function. `traced` is the function `tracedCallback` over a context and
-- the callback that it calls.
pub data Argument : Type 0 where
  value : Value → Argument
  function : ℕ → Argument
  traced : ℕ → Argument → Argument

unfoldable pub is_function : Argument → Bool
is_function (value v) = false
is_function (function fn) = true
is_function (traced c callback) = true

-- The argument `position`: missing, an index, or for `from_end n` the negative number -(n + 1)
pub data Position : Type 0 where
  missing : Position
  at : ℕ → Position
  from_end : ℕ → Position

-- `cbIndex`, which is not below 0
unfoldable pub callback_index : Position → ℕ → ℕ
callback_index missing n = n - 1
callback_index (at i) n = i
callback_index (from_end i) n = n - suc i

-- `args[i] = v` at an index of the array
unfoldable pub set {ℓ} : {A : Type ℓ} → List A → ℕ → A → List A
set [] i v = []
set (x ∷ xs) zero v = v ∷ xs
set (x ∷ xs) (suc i) v = x ∷ set xs i v

-- The callback: what stands at the index, if it is a function.
unfoldable pub callback_at : List Argument → ℕ → Option Argument
unfolding is_function
callback_at args i = elim (get_elem? args i) [
  | none ↦ none
  | some a ↦ if is_function a then some a else none
]

-- A function that is given its arguments.
abbrev pub Body : Type 0
Body = List Argument → State → State × Outcome

-- `context.result` is set only later, by the callback.
unfoldable pub after_body : Call → Channels → ℕ → State × Outcome → State × Outcome
unfolding publish publish_error
after_body call t c (s, returned v) = (publish call t.end c s, returned v)
after_body call t c (s, threw e) = elim (publish_error call t c e s) [
  | none ↦ (s, threw not_writable)
  | some s' ↦ (s', threw e)
]

unfoldable pub trace_callback :
    Call → Channels → Body → Position → Option ℕ → List Argument → State → State × Outcome
unfolding context_of callback_index callback_at set publish after_body
trace_callback call t body position context args s =
    let (s0, c) = context_of context s in
    let i = callback_index position (length args) in
    elim (callback_at args i) [
      | none ↦ (s0, threw invalid_arg_type)
      | some callback ↦
          after_body call t c (body (set args i (traced c callback)) (publish call t.start c s0))
    ]

-- `cbArgs[i]`
unfoldable pub value_at : List Value → ℕ → Value
value_at [] i = undefined
value_at (v ∷ vs) zero = v
value_at (v ∷ vs) (suc i) = value_at vs i

unfoldable pub is_truthy : Value → Bool
is_truthy undefined = false
is_truthy (falsy n) = false
is_truthy (truthy n) = true
is_truthy invalid_arg_type = true
is_truthy not_writable = true

-- What `tracedCallback` does before it calls the callback; `none` where the assignment throws.
unfoldable pub before_callback : Call → Channels → ℕ → List Value → State → Option State
unfolding value_at is_truthy set_result set_error publish
before_callback call t c args s =
    let err = value_at args 0 in
    if is_truthy err
    then elim (set_error c err s) [
      | none ↦ none
      | some s' ↦ some (publish call t.error c (publish call t.async_start c s'))
    ]
    else elim (set_result c (value_at args 1) s) [
      | none ↦ none
      | some s' ↦ some (publish call t.async_start c s')
    ]

-- `tracedCallback`, where `apply` is the call of the callback; `finally` is done on both outcomes.
unfoldable pub traced_callback :
    Call
    → Channels
    → (List Value → State → State × Outcome)
    → ℕ
    → List Value
    → State
    → State × Outcome
unfolding before_callback publish
traced_callback call t apply c args s = elim (before_callback call t c args s) [
  | none ↦ (s, threw not_writable)
  | some s1 ↦ let (s', outcome) = apply args s1 in (publish call t.async_end c s', outcome)
]
