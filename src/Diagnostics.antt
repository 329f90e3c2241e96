-- ===== src/Diagnostics.antt =====
-- jac/js_engine/engine/src/builtins/js/diagnostics_channel.js: the registry of channels, a channel's
-- subscribers, and what a message that is published does. Functions and objects are named by numbers.
pub mod Channels
pub mod Publishing
pub mod Tracing
pub mod Callbacks
pub mod Traced
use jaseci.Prelude.{
  ℕ, ◌+◌, Bool, true, false, ◌||◌, List, [], ◌∷◌, ◌++◌, Option, none, some, ltb, ◌==◌,
  if◌then◌else◌, Str, codes, str_eq, length,
}

-- The argument `name`: a string, a symbol with its identity and description, or another value.
pub data Name : Type 0 where
  string : Str → Name
  symbol : ℕ → Str → Name
  other : Name

-- A value of the program; `truthy` and `falsy` say what a condition makes of it. The TypeError with
-- the code ERR_INVALID_ARG_TYPE is the one that the module throws; `not_writable` is the TypeError of an
-- assignment to a property of a frozen object, which strict code throws.
pub data Value : Type 0 where
  undefined : Value
  falsy : ℕ → Value
  truthy : ℕ → Value
  invalid_arg_type : Value
  not_writable : Value

-- The properties that tracing sets on a context, and whether the program has frozen it.
pub record Context : Type 0 where
  pub frozen : Bool
  pub result : Option Value
  pub error : Option Value

-- `channels` is `_channels`, from a key to the address of a Channel; `name` and `subscribers` are the
-- fields of the Channel at an address. `ticks` are the errors that process.nextTick was given to throw,
-- and `has_next_tick` says that there is such a function.
pub record State : Type 0 where
  pub channels : List (Str × ℕ)
  pub name : ℕ → Name
  pub subscribers : ℕ → List ℕ
  pub next : ℕ
  pub contexts : ℕ → Context
  pub ticks : List Value
  pub has_next_tick : Bool

-- How a call ends.
pub data Outcome : Type 0 where
  returned : Value → Outcome
  threw : Value → Outcome

-- What a subscriber does with a message and the name of the channel: it may change the state, and
-- throw a value.
abbrev pub Call : Type 0
Call = ℕ → ℕ → Name → State → State × Option Value

unfoldable pub store {ℓ} : {A : Type ℓ} → (ℕ → A) → ℕ → A → ℕ → A
store f a v b = if b == a then v else f b

-- `_channels[key]`
unfoldable pub channel_at : List (Str × ℕ) → Str → Option ℕ
channel_at [] key = none
channel_at ((k, a) ∷ channels) key =
    let rest = channel_at channels key in if str_eq k key then some a else rest

-- `typeof name === 'symbol' ? String(name) : name`; `none` where the type is wrong
unfoldable pub key_of : Name → Option Str
key_of (string s) = some s
key_of (symbol id description) = some (codes "Symbol(" ++ description ++ codes ")")
key_of other = none

-- The channel at a key, which is made with the name if there is none.
unfoldable pub get_or_make : Name → Str → State → State × ℕ
unfolding channel_at store
get_or_make name key s = elim (channel_at s.channels key) [
  | some a ↦ (s, a)
  | none ↦ (
    record s {
      channels = s.channels ++ ((key, s.next) ∷ []);
      name = store s.name s.next name;
      subscribers = store s.subscribers s.next [];
      next = s.next + 1;
    },
    s.next,
  )
]

-- `channel(name)`; without an address where it throws the TypeError
unfoldable pub channel : Name → State → State × Option ℕ
unfolding key_of get_or_make
channel name s = elim (key_of name) [
  | none ↦ (s, none)
  | some key ↦ (let (s', a) = get_or_make name key s in (s', some a))
]

-- The getter `hasSubscribers` of a Channel
unfoldable pub has_subscribers : ℕ → State → Bool
has_subscribers a s = ltb 0 (length (s.subscribers a))

-- `Channel.prototype.subscribe` with a function
unfoldable pub subscribe : ℕ → ℕ → State → State
unfolding store
subscribe a fn s = record s { subscribers = store s.subscribers a (s.subscribers a ++ (fn ∷ [])) }

-- The list without the first place of the function; `none` where it has none.
unfoldable pub splice_first : ℕ → List ℕ → Option (List ℕ)
splice_first fn [] = none
splice_first fn (g ∷ list) = elim (g == fn) [
  | true ↦ some list
  | false ↦ elim (splice_first fn list) [ none ↦ none | some rest ↦ some (g ∷ rest) ]
]

-- `Channel.prototype.unsubscribe`
unfoldable pub unsubscribe : ℕ → ℕ → State → State × Bool
unfolding splice_first store
unsubscribe a fn s = elim (splice_first fn (s.subscribers a)) [
  | none ↦ (s, false)
  | some list ↦ (record s { subscribers = store s.subscribers a list }, true)
]

-- The `catch` of `publish`: the error is thrown later, where process.nextTick is there.
unfoldable pub throw_later : Option Value → State → State
throw_later none s = s
throw_later (some e) s = if s.has_next_tick then record s { ticks = s.ticks ++ (e ∷ []) } else s

-- The loop of `publish` over the copy of the subscribers.
unfoldable pub publish_to : Call → List ℕ → ℕ → Name → State → State
unfolding throw_later
publish_to call [] message name s = s
publish_to call (fn ∷ list) message name s =
    let (s', thrown) = call fn message name s in
    publish_to call list message name (throw_later thrown s')

-- `Channel.prototype.publish`
unfoldable pub publish : Call → ℕ → ℕ → State → State
unfolding publish_to
publish call a message s = publish_to call (s.subscribers a) message (s.name a) s
