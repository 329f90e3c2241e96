-- ===== src/Tests/Targets.antt =====
-- Tests of event_target.js and of the classes of text_codec.js.
use jaseci.Prelude.{◌≡◌, refl, true, false, [], ◌∷◌, none, some, codes, Str, str_eq, if◌then◌else◌}
use jaseci.EventTarget.{
  Event, new_event, Entry, Target, Call, add_event_listener, remove_event_listener, dispatch_event,
}
use jaseci.EventTarget.Registered.{Registered, add_event_listener-Registered}
use jaseci.TextCodec.Classes.{DecodeHook, HookAgrees, fallback}

abbrev type : Str
type = codes "click"

-- A target with one listener, for a single call.
abbrev one : Target
one = record { lists = (type, record { listener = 1; once = true } ∷ []) ∷ []; hooks = [] }

-- A listener that removes listener 1.
abbrev remover : Call
remover = λ l ev t. (ev, remove_event_listener type 1 t)

add-twice : add_event_listener type 1 true false none one ≡ one
unfolding add_event_listener str_eq
add-twice = refl

dispatch_event-one :
    (dispatch_event remover (new_event type false false) one).1 ≡ record { lists = []; hooks = [] }
unfolding dispatch_event str_eq new_event
dispatch_event-one = refl

one-Registered : Registered one
unfolding jaseci.EventTarget.has_listener
one-Registered = ((refl, tt), tt)

add_event_listener-Registered_example : Registered (add_event_listener type 1 true true none one)
add_event_listener-Registered_example =
    add_event_listener-Registered type 1 true true none one one-Registered

-- A hook that answers for fatal decoders only.
abbrev hook : DecodeHook
hook = some (λ fatal bytes. if fatal then some (fallback fatal bytes) else none)

hook-HookAgrees : HookAgrees hook
hook-HookAgrees true bytes r e = cc
hook-HookAgrees false bytes r e = cc
