-- ===== src/EventTarget/Registered.antt =====
-- No listener is registered twice for a type with an EventTarget.
use jaseci.Prelude.{
  ℕ, Bool, true, false, not, ◌||◌, List, [], ◌∷◌, ◌++◌, Option, none, some, ◌==◌, if◌then◌else◌,
  if_both, Str, str_eq, ◌≡◌, refl, arith, All, Bool-cases, inl, inr,
}
use jaseci.EventTarget.{
  Event, Entry, Target, entries_of, put, drop_type, has_listener, remove_listener, put_or_drop,
  remove_event_listener, watch_signal, list_for, add_event_listener, Call, dispatch_loop,
  dispatch_event,
}

-- Every listener stands in the list once.
abbrev pub Single : List Entry → Type 0
Single [] = Unit
Single (x ∷ list) = (has_listener list x.listener ≡ false) × Single list

abbrev pub AllSingle : List (Str × List Entry) → Type 0
AllSingle = All (λ (p : Str × List Entry). Single p.1)

-- The invariant of a target.
abbrev pub Registered : Target → Type 0
Registered t = AllSingle t.lists

put-AllSingle :
    (lists : List (Str × List Entry)) (type : Str) (list : List Entry)
    → AllSingle lists
    → Single list
    → AllSingle (put lists type list)
unfolding put
put-AllSingle [] type list h k = (k, tt)
put-AllSingle ((key, old) ∷ lists) type list h k =
    if_both AllSingle (str_eq key type) ((key, list) ∷ lists) ((key, old) ∷ put lists type list)
      (k, h.1) (h.0, put-AllSingle lists type list h.1 k)

drop_type-AllSingle :
    (lists : List (Str × List Entry)) (type : Str)
    → AllSingle lists
    → AllSingle (drop_type lists type)
unfolding drop_type
drop_type-AllSingle [] type h = tt
drop_type-AllSingle ((key, old) ∷ lists) type h =
    if_both AllSingle (str_eq key type) (drop_type lists type) ((key, old) ∷ drop_type lists type)
      (drop_type-AllSingle lists type h.1) (h.0, drop_type-AllSingle lists type h.1)

-- What is found satisfies the invariant.
abbrev Found : Option (List Entry) → Type 0
Found none = Unit
Found (some list) = Single list

entries_of-Found :
    (lists : List (Str × List Entry)) (type : Str) → AllSingle lists → Found (entries_of lists type)
unfolding entries_of
entries_of-Found [] type h = tt
entries_of-Found ((key, list) ∷ lists) type h =
    if_both Found (str_eq key type) (some list) (entries_of lists type) h.0
      (entries_of-Found lists type h.1)

has-remove :
    (list : List Entry) (l m : ℕ)
    → has_listener list m ≡ false
    → has_listener (remove_listener list l) m ≡ false
unfolding has_listener remove_listener
has-remove [] l m h = refl
has-remove (x ∷ list) l m h = elim (Bool-cases (x.listener == l)) [
  | inl e ↦ rw e (right (x.listener == m) (has_listener list m) h)
  | inr e ↦ rw e (both (x.listener == m) (has_listener list m) _ h (has-remove list l m))
]
  where
    right : (a b : Bool) → a || b ≡ false → b ≡ false
    right false b h = h
    right true b h = absurd (cc h)

    both : (a b c : Bool) → a || b ≡ false → (b ≡ false → c ≡ false) → a || c ≡ false
    both false b c h k = k h
    both true b c h k = h

remove-Single : (list : List Entry) (l : ℕ) → Single list → Single (remove_listener list l)
unfolding remove_listener
remove-Single [] l h = tt
remove-Single (x ∷ list) l h =
    if_both Single (x.listener == l) list (x ∷ remove_listener list l) h.1
      (has-remove list l x.listener h.0, remove-Single list l h.1)

put_or_drop-AllSingle :
    (lists : List (Str × List Entry)) (type : Str) (list : List Entry)
    → AllSingle lists
    → Single list
    → AllSingle (put_or_drop lists type list)
unfolding put_or_drop
put_or_drop-AllSingle lists type [] h k = drop_type-AllSingle lists type h
put_or_drop-AllSingle lists type (x ∷ list) h k = put-AllSingle lists type (x ∷ list) h k

-- Removing a listener keeps the invariant.
pub remove_event_listener-Registered :
    (type : Str) (l : ℕ) (t : Target) → Registered t → Registered (remove_event_listener type l t)
unfolding remove_event_listener
remove_event_listener-Registered type l t h =
    go (entries_of t.lists type) (entries_of-Found t.lists type h)
  where
    go :
        (o : Option (List Entry))
        → Found o
        → Registered (elim o as (λ o. Target) [
          | none ↦ t
          | some list ↦ record t { lists = put_or_drop t.lists type (remove_listener list l) }
        ])
    go none k = h
    go (some list) k =
        put_or_drop-AllSingle t.lists type (remove_listener list l) h (remove-Single list l k)

has-append :
    (list : List Entry) (x : Entry) (m : ℕ)
    → has_listener list m ≡ false
    → (x.listener == m) ≡ false
    → has_listener (list ++ x ∷ []) m ≡ false
unfolding has_listener
has-append [] x m h k = rw k refl
has-append (y ∷ list) x m h k =
    join (y.listener == m) (has_listener list m) _ h (λ e. has-append list x m e k)
  where
    join : (a b c : Bool) → a || b ≡ false → (b ≡ false → c ≡ false) → a || c ≡ false
    join false b c h k = k h
    join true b c h k = h

or-false : (a b : Bool) → a || b ≡ false → (a ≡ false) × (b ≡ false)
or-false false b h = (refl, h)
or-false true b h = absurd (cc h)

==-swap : (a b : ℕ) → (a == b) ≡ false → (b == a) ≡ false
==-swap a b h = ground (arith, h)

append-Single :
    (list : List Entry) (x : Entry)
    → Single list
    → has_listener list x.listener ≡ false
    → Single (list ++ x ∷ [])
unfolding has_listener
append-Single [] x h k = (refl, tt)
append-Single (y ∷ list) x h k =
    let (apart, rest) = or-false (y.listener == x.listener) (has_listener list x.listener) k in
    (
      has-append list x y.listener h.0 (==-swap y.listener x.listener apart),
      append-Single list x h.1 rest,
    )

list_for-Single : (t : Target) (type : Str) → Registered t → Single (list_for t type)
unfolding list_for
list_for-Single t type h = go (entries_of t.lists type) (entries_of-Found t.lists type h)
  where
    go :
        (o : Option (List Entry))
        → Found o
        → Single (elim o as (λ o. List Entry) [ none ↦ [] | some list ↦ list ])
    go none k = tt
    go (some list) k = k

watch_signal-Registered :
    (signal : Option (ℕ × Bool)) (type : Str) (l : ℕ) (t : Target)
    → Registered t
    → Registered (watch_signal signal type l t)
unfolding watch_signal
watch_signal-Registered none type l t h = h
watch_signal-Registered (some (signal, aborted)) type l t h =
    if_both Registered aborted (remove_event_listener type l t) _
      (remove_event_listener-Registered type l t h) h

-- Adding a listener, with any options, keeps every listener registered once for a type.
pub add_event_listener-Registered :
    (type : Str) (l : ℕ) (callable once : Bool) (signal : Option (ℕ × Bool)) (t : Target)
    → Registered t
    → Registered (add_event_listener type l callable once signal t)
unfolding add_event_listener
add_event_listener-Registered type l callable once signal t h =
    let list = list_for t type in
    let entry : Entry = record { listener = l; once = once } in
    let created : Target = record t { lists = put t.lists type list } in
    let added : Target = record t { lists = put t.lists type (list ++ entry ∷ []) } in
    let same = put-AllSingle t.lists type list h (list_for-Single t type h) in
    elim (Bool-cases (not callable || has_listener list l)) [
      | inl e ↦ rw e same
      | inr e ↦ rw e (
          watch_signal-Registered signal type l added (
            put-AllSingle t.lists type (list ++ entry ∷ []) h (
              append-Single list entry (list_for-Single t type h)
                (or-false (not callable) (has_listener list l) e).1)))
    ]

-- The listeners keep the invariant of the target.
abbrev pub Keeps : Call → Type 0
Keeps call = (l : ℕ) (ev : Event) (t : Target) → Registered t → Registered (call l ev t).1

dispatch_loop-Registered :
    (call : Call)
    → Keeps call
    → (snapshot : List Entry) (ev : Event) (t : Target) → Registered t
    → Registered (dispatch_loop call snapshot ev t).1
unfolding dispatch_loop
dispatch_loop-Registered call keeps [] ev t h = h
dispatch_loop-Registered call keeps (x ∷ snapshot) ev t h =
    let ready = if x.once then remove_event_listener ev.type x.listener t else t in
    let kept =
      if_both Registered x.once (remove_event_listener ev.type x.listener t) t
        (remove_event_listener-Registered ev.type x.listener t h) h in
    let r = call x.listener ev ready in
    if_both (λ (p : Event × Target). Registered p.1) ev.stop_immediate (ev, t)
      (dispatch_loop call snapshot r.0 r.1) h
      (dispatch_loop-Registered call keeps snapshot r.0 r.1 (keeps x.listener ev ready kept))

-- Dispatching an event keeps every listener registered once for a type, if the listeners do, however
-- else they change the event and the target.
pub dispatch_event-Registered :
    (call : Call) (ev : Event) (t : Target)
    → Keeps call
    → Registered t
    → Registered (dispatch_event call ev t).1
unfolding dispatch_event
dispatch_event-Registered call ev t keeps h =
    dispatch_loop-Registered call keeps (list_for t ev.type) _ t h
