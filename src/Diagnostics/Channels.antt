-- ===== src/Diagnostics/Channels.antt =====
-- The registry of diagnostics_channel.js: which name has which channel, and the subscribers of one.
use jaseci.Prelude.{
  ℕ, ◌+◌, ◌<◌, true, List, [], ◌∷◌, ◌++◌, none, some, Str, str_eq, str_eq_iff, ◌≡◌, ◌≢◌, ◌↔◌, refl,
  ap, sym, ◌∙◌, inl, inr, arith, All, All-append, Bool-cases, Option-cases, ap₂, subst, fun_ext,
  eq→==, ne→==,
}
use jaseci.Diagnostics.{
  Name, State, store, channel_at, key_of, get_or_make, channel, subscribe, splice_first,
  unsubscribe,
}

-- The channel of an entry was made, with a name that has the key.
abbrev pub IsEntry : State → Str × ℕ → Type 0
IsEntry s (k, a) = (a < s.next) × (key_of (s.name a) ≡ some k)

abbrev pub IsRegistry : State → Type 0
IsRegistry s = All (IsEntry s) s.channels

pub channel_at-entry :
    (P : Str × ℕ → Type 0) (channels : List (Str × ℕ)) (k : Str) (a : ℕ)
    → All P channels
    → channel_at channels k ≡ some a
    → P (k, a)
unfolding channel_at
channel_at-entry P [] k a h e = cc
channel_at-entry P ((j, b) ∷ channels) k a h e = elim (Bool-cases (str_eq j k)) [
  | inl same ↦
      let found : some b ≡ some a = sym (rw same refl) ∙ e in
      let same_address : b ≡ a = cc in
      let key = (str_eq_iff j k).0 same in
      subst P (ap₂ (λ (x : Str) (y : ℕ). (x, y)) key same_address) h.0
  | inr differ ↦ channel_at-entry P channels k a h.1 (sym (rw differ refl) ∙ e)
]

channel_at-append :
    (channels : List (Str × ℕ)) (k : Str) (a : ℕ) (p : Str × ℕ)
    → channel_at channels k ≡ some a
    → channel_at (channels ++ p ∷ []) k ≡ some a
unfolding channel_at
channel_at-append [] k a p e = cc
channel_at-append ((j, b) ∷ channels) k a p e = ground (arith, channel_at-append channels k a p)

channel_at-new :
    (channels : List (Str × ℕ)) (k : Str) (a : ℕ)
    → channel_at channels k ≡ none
    → channel_at (channels ++ (k, a) ∷ []) k ≡ some a
unfolding channel_at
channel_at-new [] k a e = let same = (str_eq_iff k k).1 refl in rw same refl
channel_at-new ((j, b) ∷ channels) k a e = ground (arith, channel_at-new channels k a)

-- What `get_or_make` gives: the channel of the key, in a registry that keeps every other.
record IsMade (name : Name) (key : Str) (s : State) : Type 0 where
  registry : IsRegistry (get_or_make name key s).0
  found : channel_at (get_or_make name key s).0.channels key ≡ some (get_or_make name key s).1
  keeps :
      (k : Str) (a : ℕ)
      → channel_at s.channels k ≡ some a
      → channel_at (get_or_make name key s).0.channels k ≡ some a

entries-keep :
    (s : State) (channels : List (Str × ℕ)) (name : Name)
    → All (IsEntry s) channels
    → All
        (λ (p : Str × ℕ). (p.1 < s.next + 1) × (key_of (store s.name s.next name p.1) ≡ some p.0))
        channels
unfolding store
entries-keep s [] name h = tt
entries-keep s ((k, a) ∷ channels) name ((lt, named), h) = (
  (omega arith, rw (ne→== a s.next (λ e. absurd (omega arith))) named),
  entries-keep s channels name h,
)

get_or_make-IsMade :
    (name : Name) (key : Str) (s : State)
    → key_of name ≡ some key
    → IsRegistry s
    → IsMade name key s
unfolding get_or_make store
get_or_make-IsMade name key s named h = elim (Option-cases (channel_at s.channels key)) [
  | inr (a, e) ↦ record {
    registry = rw (e, get_or_make) h;
    found = rw (e, get_or_make) e;
    keeps = λ k b f. rw (e, get_or_make) f;
  }
  | inl e ↦ record {
    registry =
        rw (e, get_or_make)
          (All-append _ s.channels ((key, s.next) ∷ []) (entries-keep s s.channels name h)
            ((omega arith, rw (eq→== s.next s.next refl) named), tt));
    found = rw (e, get_or_make) (channel_at-new s.channels key s.next e);
    keeps = λ k b f. rw (e, get_or_make) (channel_at-append s.channels k b (key, s.next) f);
  }
]

-- `channel` with a name that is a string or a symbol.
channel-key :
    (name : Name) (s : State) {a : ℕ}
    → (channel name s).1 ≡ some a
    → (key : Str) × (key_of name ≡ some key)
      × ((channel name s).0 ≡ (get_or_make name key s).0)
      × ((get_or_make name key s).1 ≡ a)
unfolding channel
channel-key name s e = elim (Option-cases (key_of name)) [
  | inl e' ↦ let c : (channel name s).1 ≡ none = rw (e', channel) refl in cc
  | inr (key, k) ↦
      let c : (channel name s).1 ≡ some (get_or_make name key s).1 = rw (k, channel) refl in
      (key, k, rw (k, channel) refl, cc)
]

-- `channel` keeps a registry in which every channel has a name with its key.
pub channel-IsRegistry : (name : Name) (s : State) → IsRegistry s → IsRegistry (channel name s).0
unfolding channel
channel-IsRegistry name s h = elim (Option-cases (key_of name)) [
  | inl e ↦ rw (e, channel) h
  | inr (key, k) ↦ rw (k, channel) (get_or_make-IsMade name key s k h).registry
]

-- Two calls of `channel`, the second on what the first left, give the same channel exactly when the
-- names have the same key.
pub channel-eq_iff :
    (m n : Name) (s : State) {a b : ℕ}
    → IsRegistry s
    → (channel m s).1 ≡ some a
    → (channel n (channel m s).0).1 ≡ some b
    → (a ≡ b) ↔ (key_of m ≡ key_of n)
channel-eq_iff m n s {a} {b} h e f =
    let (j, m_key, m_state, m_made) = channel-key m s e in
    let first = get_or_make-IsMade m j s m_key h in
    let (k, n_key, n_state, n_made) = channel-key n (channel m s).0 f in
    let second = get_or_make-IsMade n k (channel m s).0 n_key (channel-IsRegistry m s h) in
    let t = (get_or_make n k (channel m s).0).0 in
    let at_j : channel_at (channel m s).0.channels j ≡ some a =
      ap (λ (x : State). channel_at x.channels j) m_state ∙ first.found ∙ ap some m_made in
    let a_at : channel_at t.channels j ≡ some a = second.keeps j a at_j in
    let b_at : channel_at t.channels k ≡ some b = second.found ∙ ap some n_made in
    let a_named : key_of (t.name a) ≡ some j =
      (channel_at-entry (IsEntry t) t.channels j a second.registry a_at).1 in
    let b_named : key_of (t.name b) ≡ some k =
      (channel_at-entry (IsEntry t) t.channels k b second.registry b_at).1 in
    (
      λ same. m_key ∙ sym a_named ∙ ap (λ x. key_of (t.name x)) same ∙ b_named ∙ sym n_key,
      λ same.
          let keys : j ≡ k = cc in
          let both : some a ≡ some b = sym a_at ∙ ap (λ x. channel_at t.channels x) keys ∙ b_at in
          cc,
    )

splice_first-append :
    (fn : ℕ) (list : List ℕ)
    → All (λ g. g ≢ fn) list
    → splice_first fn (list ++ fn ∷ []) ≡ some list
unfolding splice_first
splice_first-append fn [] h = rw (eq→== fn fn refl, splice_first) refl
splice_first-append fn (g ∷ list) h =
    rw (ne→== g fn h.0, splice_first, splice_first-append fn list h.1) refl

store-store {ℓ} : {A : Type ℓ} (f : ℕ → A) (a : ℕ) (v w : A) → store (store f a v) a w ≡ store f a w
unfolding store
store-store f a v w = fun_ext (λ b. ground arith)

store_self {ℓ} : {A : Type ℓ} (f : ℕ → A) (a : ℕ) (v : A) → f a ≡ v → store f a v ≡ f
unfolding store
store_self f a v e = fun_ext (λ b. ground arith)

store-at {ℓ} : {A : Type ℓ} (f : ℕ → A) (a : ℕ) (v : A) → store f a v a ≡ v
unfolding store
store-at f a v = rw (eq→== a a refl) refl

unsubscribe-found :
    (a fn : ℕ) (s : State) (list : List ℕ)
    → splice_first fn (s.subscribers a) ≡ some list
    → unsubscribe a fn s ≡ (record s { subscribers = store s.subscribers a list }, true)
unfolding unsubscribe
unsubscribe-found a fn s list e = rw (e, unsubscribe) refl

-- A function that is no subscriber is one after `subscribe`, and `unsubscribe` then says so and gives
-- back the state before.
pub unsubscribe-subscribe :
    (a fn : ℕ) (s : State)
    → All (λ g. g ≢ fn) (s.subscribers a)
    → unsubscribe a fn (subscribe a fn s) ≡ (s, true)
unfolding subscribe
unsubscribe-subscribe a fn s h =
    let list = s.subscribers a in
    let held = store-at s.subscribers a (list ++ fn ∷ []) in
    unsubscribe-found a fn (subscribe a fn s) list
      (ap (splice_first fn) held ∙ splice_first-append fn list h)
    ∙ ap (λ (f : ℕ → List ℕ). (record s { subscribers = f }, true))
        (store-store s.subscribers a (list ++ fn ∷ []) list ∙ store_self s.subscribers a list refl)
