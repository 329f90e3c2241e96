-- ===== src/EventTarget.antt =====
-- Event and EventTarget of jac/js_engine/engine/src/builtins/js/event_target.js. What a listener
-- does is an argument, `call`: it takes the listener, the event and the target, and may change both
-- in any way; an error that it throws is reported and dispatching goes on, so that it is no part of the result.
pub mod Registered
use jaseci.Prelude.{
  ℕ, Bool, true, false, not, ◌||◌, List, [], ◌∷◌, ◌++◌, Option, none, some, ◌==◌, if◌then◌else◌,
  Str, str_eq,
}

-- An event: `at_target` is the phase AT_TARGET (NONE else), `has_current` and `has_target` tell whether
-- currentTarget and target are the target or null.
pub record Event : Type 0 where
  pub type : Str
  pub bubbles : Bool
  pub cancelable : Bool
  pub default_prevented : Bool
  pub cancel_bubble : Bool
  pub stop_immediate : Bool
  pub at_target : Bool
  pub has_target : Bool
  pub has_current : Bool
  pub return_value : Bool

unfoldable pub new_event : Str → Bool → Bool → Event
new_event type bubbles cancelable = record {
  type = type;
  bubbles = bubbles;
  cancelable = cancelable;
  default_prevented = false;
  cancel_bubble = false;
  stop_immediate = false;
  at_target = false;
  has_target = false;
  has_current = false;
  return_value = true;
}

unfoldable pub prevent_default : Event → Event
prevent_default ev =
    if ev.cancelable then record ev { default_prevented = true; return_value = false } else ev

unfoldable pub stop_propagation : Event → Event
stop_propagation ev = record ev { cancel_bubble = true }

unfoldable pub stop_immediate_propagation : Event → Event
stop_immediate_propagation ev = record ev { cancel_bubble = true; stop_immediate = true }

-- `{ listener, fn, once }`; `fn` is the listener or its handleEvent.
pub record Entry : Type 0 where
  pub listener : ℕ
  pub once : Bool

-- `_listeners`, and what was registered with abort signals: signal, type and listener.
pub record Target : Type 0 where
  pub lists : List (Str × List Entry)
  pub hooks : List (ℕ × Str × ℕ)

unfoldable pub entries_of : List (Str × List Entry) → Str → Option (List Entry)
entries_of [] type = none
entries_of ((k, list) ∷ lists) type =
    let rest = entries_of lists type in if str_eq k type then some list else rest

unfoldable pub put : List (Str × List Entry) → Str → List Entry → List (Str × List Entry)
put [] type list = (type, list) ∷ []
put ((k, old) ∷ lists) type list =
    let rest = put lists type list in if str_eq k type then (k, list) ∷ lists else (k, old) ∷ rest

unfoldable pub drop_type : List (Str × List Entry) → Str → List (Str × List Entry)
drop_type [] type = []
drop_type ((k, list) ∷ lists) type =
    let rest = drop_type lists type in if str_eq k type then rest else (k, list) ∷ rest

unfoldable pub has_listener : List Entry → ℕ → Bool
has_listener [] l = false
has_listener (x ∷ list) l = x.listener == l || has_listener list l

unfoldable pub remove_listener : List Entry → ℕ → List Entry
remove_listener [] l = []
remove_listener (x ∷ list) l =
    let rest = remove_listener list l in if x.listener == l then list else x ∷ rest

-- `if (list.length === 0) delete`, after the removal.
unfoldable pub put_or_drop : List (Str × List Entry) → Str → List Entry → List (Str × List Entry)
unfolding drop_type put
put_or_drop lists type [] = drop_type lists type
put_or_drop lists type (x ∷ list) = put lists type (x ∷ list)

unfoldable pub remove_event_listener : Str → ℕ → Target → Target
unfolding entries_of remove_listener put_or_drop
remove_event_listener type l t = elim (entries_of t.lists type) [
  | none ↦ t
  | some list ↦ record t { lists = put_or_drop t.lists type (remove_listener list l) }
]

-- The signal of the options: its identity, and whether it is aborted.
unfoldable pub watch_signal : Option (ℕ × Bool) → Str → ℕ → Target → Target
unfolding remove_event_listener
watch_signal none type l t = t
watch_signal (some (signal, aborted)) type l t =
    if aborted
    then remove_event_listener type l t
    else record t { hooks = t.hooks ++ ((signal, type, l) ∷ []) }

-- The list that a listener is added to: the empty one, if there is none.
unfoldable pub list_for : Target → Str → List Entry
unfolding entries_of
list_for t type = elim (entries_of t.lists type) [ none ↦ [] | some list ↦ list ]

-- `callable` tells whether the listener is a function or has a handleEvent.
unfoldable pub add_event_listener : Str → ℕ → Bool → Bool → Option (ℕ × Bool) → Target → Target
unfolding list_for put has_listener watch_signal
add_event_listener type l callable once signal t =
    let list = list_for t type in
    let entry : Entry = record { listener = l; once = once } in
    let created = record t { lists = put t.lists type list } in
    let added = record t { lists = put t.lists type (list ++ (entry ∷ [])) } in
    if not callable || has_listener list l then created else watch_signal signal type l added

abbrev pub Call : Type 0
Call = ℕ → Event → Target → Event × Target

-- The loop over the snapshot.
unfoldable pub dispatch_loop : Call → List Entry → Event → Target → Event × Target
unfolding remove_event_listener
dispatch_loop call [] ev t = (ev, t)
dispatch_loop call (x ∷ snapshot) ev t =
    let ready = if x.once then remove_event_listener ev.type x.listener t else t in
    let (ev', t') = call x.listener ev ready in
    let rest = dispatch_loop call snapshot ev' t' in if ev.stop_immediate then (ev, t) else rest

-- The result is `!event.defaultPrevented`.
unfoldable pub dispatch_event : Call → Event → Target → Event × Target × Bool
unfolding dispatch_loop list_for
dispatch_event call ev t =
    let ev1 = record ev { has_target = true; has_current = true; at_target = true } in
    let (ev2, t2) = dispatch_loop call (list_for t ev.type) ev1 t in
    (record ev2 { at_target = false; has_current = false }, t2, not ev2.default_prevented)
