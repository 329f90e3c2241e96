-- ===== src/Tests/Traces.antt =====
-- The tracing of diagnostics_channel.js at concrete inputs.
use jaseci.Prelude.{
  ℕ, ◌+◌, Bool, true, false, List, [], ◌∷◌, Option, none, some, ◌==◌, if◌then◌else◌, codes, ◌≡◌,
  ◌↔◌, refl, arith,
}
use jaseci.Diagnostics.{Name, Value, State, threw, Call, key_of, channel, publish}
use jaseci.Diagnostics.Channels.{channel-eq_iff}
use jaseci.Diagnostics.Publishing.{Fails, failures, publish-ticks}
use jaseci.Diagnostics.Tracing.{Channels, Source, tracing_channel, Run, trace_sync}
use jaseci.Diagnostics.Callbacks.{Argument, Position, callback_index, callback_at}

-- No channel has been made.
abbrev fresh : State
fresh = record {
  channels = [];
  name = λ a. Name.other;
  subscribers = λ a. [];
  next = 0;
  contexts = λ c. record { frozen = false; result = none; error = none };
  ticks = [];
  has_next_tick = true;
}

-- The functions 3 and 4 subscribe to the channel at 0.
abbrev busy : State
busy = record fresh {
  channels = (codes "db", 0) ∷ [];
  name = λ a. Name.string (codes "db");
  subscribers = λ a. if a == 0 then 3 ∷ 4 ∷ [] else [];
  next = 1;
}

abbrev five : Channels
five = record { start = 1; end = 2; async_start = 3; async_end = 4; error = 5 }

-- The function 3 throws, and every function empties the channel.
abbrev throwing : Call
throwing fn message name s =
    (record s { subscribers = λ a. [] }, if fn == 3 then some (Value.truthy 7) else none)

abbrev fails : ℕ → Option Value
fails fn = if fn == 3 then some (Value.truthy 7) else none

throwing-fails : Fails throwing fails
throwing-fails = record {
  throws = λ fn m n s. refl;
  keeps_ticks = λ fn m n s. refl;
  keeps_process = λ fn m n s. refl;
}

-- A function that throws.
abbrev failing : Run
failing s = (s, threw (Value.truthy 9))

-- Two names with one key: a symbol and the string that it is shown as.
same_channel :
    (channel (Name.string (codes "Symbol(x)")) (channel (Name.symbol 5 (codes "x")) fresh).0).1
    ≡ (channel (Name.symbol 5 (codes "x")) fresh).1
unfolding channel jaseci.Prelude.str_eq
same_channel = refl

published : (publish throwing 0 1 busy).ticks ≡ Value.truthy 7 ∷ []
unfolding publish
published = refl

made_channels : (tracing_channel (Source.by_name (codes "q")) fresh).0.next ≡ 5
unfolding tracing_channel jaseci.Prelude.str_eq
made_channels = refl

last_argument :
    callback_at
      (Argument.value Value.undefined ∷ Argument.function 2 ∷ [])
      (callback_index Position.missing 2)
    ≡ some (Argument.function 2)
unfolding callback_at callback_index
last_argument = refl

channel-eq_iff_example :
    (◌≡◌ {A = ℕ} 0 1) ↔ (key_of (Name.string (codes "a")) ≡ key_of (Name.string (codes "b")))
unfolding channel jaseci.Prelude.str_eq
channel-eq_iff_example =
    channel-eq_iff (Name.string (codes "a")) (Name.string (codes "b")) fresh {a = 0} {b = 1} tt refl
      refl

publish-ticks_example : (publish throwing 0 1 busy).ticks ≡ failures fails (3 ∷ 4 ∷ [])
publish-ticks_example = publish-ticks throwing fails 0 1 busy throwing-fails refl

failed : (trace_sync throwing five failing none busy).1 ≡ threw (Value.truthy 9)
unfolding trace_sync
failed = refl

-- The assignment to a frozen context throws.
frozen_context :
    (trace_sync throwing five failing
      (some 0)
      (record busy { contexts = λ c. record { frozen = true; result = none; error = none } })).1
    ≡ threw Value.not_writable
unfolding trace_sync
frozen_context = refl
