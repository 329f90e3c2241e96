-- ===== src/Diagnostics/Publishing.antt =====
-- `publish` of diagnostics_channel.js: who is called, and what becomes of errors.
use jaseci.Prelude.{
  ℕ, true, List, [], ◌∷◌, ◌++◌, Option, none, some, ◌≡◌, ap, sym, ◌∙◌, append_assoc, append-nil,
  if_true,
}
use jaseci.Diagnostics.{Name, Value, State, Call, throw_later, publish_to, publish}

-- The errors that the subscribers throw, in their order.
abbrev pub failures : (ℕ → Option Value) → List ℕ → List Value
failures fails [] = []
failures fails (fn ∷ list) = elim (fails fn) [
  | none ↦ failures fails list
  | some e ↦ e ∷ failures fails list
]

-- A subscriber throws what `fails` says, and leaves process.nextTick alone.
pub record Fails (call : Call) (fails : ℕ → Option Value) : Type 0 where
  pub throws : (fn message : ℕ) (name : Name) (s : State) → (call fn message name s).1 ≡ fails fn
  pub keeps_ticks :
      (fn message : ℕ) (name : Name) (s : State) → (call fn message name s).0.ticks ≡ s.ticks
  pub keeps_process :
      (fn message : ℕ) (name : Name) (s : State)
      → (call fn message name s).0.has_next_tick ≡ s.has_next_tick

publish_to-ticks :
    (call : Call) (fails : ℕ → Option Value) (message : ℕ) (name : Name)
    → Fails call fails
    → (list : List ℕ) (s : State) → s.has_next_tick ≡ true
    → (publish_to call list message name s).ticks ≡ s.ticks ++ failures fails list
unfolding publish_to throw_later
publish_to-ticks call fails message name h [] s p = sym (append-nil s.ticks)
publish_to-ticks call fails message name h (fn ∷ list) s p =
    let s' = (call fn message name s).0 in
    let p' : s'.has_next_tick ≡ true = h.keeps_process fn message name s ∙ p in
    let kept = h.keeps_ticks fn message name s in
    rw (h.throws fn message name s, publish_to)
      (elim (fails fn)
        as (λ (o : Option Value).
          (publish_to call list message name (throw_later o s')).ticks
          ≡ s.ticks ++ elim o [ none ↦ failures fails list | some e ↦ e ∷ failures fails list ]) [
            | none ↦
                publish_to-ticks call fails message name h list s' p'
                ∙ ap (λ (l : List Value). l ++ failures fails list) kept
            | some e ↦
                let t = record s' { ticks = s'.ticks ++ e ∷ [] } in
                ap (λ (x : State). (publish_to call list message name x).ticks) (if_true t s' p')
                ∙ publish_to-ticks call fails message name h list t p'
                ∙ append_assoc s'.ticks (e ∷ []) (failures fails list)
                ∙ ap (λ (l : List Value). l ++ e ∷ failures fails list) kept
          ])

-- `publish` calls every subscriber that the channel had before, each once and in order, whatever they
-- throw or do to the channels: the errors that they throw are given to process.nextTick, in that order
-- and behind those that were there. Each subscriber throws a fixed error or none, leaves the errors and
-- process.nextTick alone, and there is such a function.
pub publish-ticks :
    (call : Call) (fails : ℕ → Option Value) (a message : ℕ) (s : State)
    → Fails call fails
    → s.has_next_tick ≡ true
    → (publish call a message s).ticks ≡ s.ticks ++ failures fails (s.subscribers a)
unfolding publish
publish-ticks call fails a message s h p =
    publish_to-ticks call fails message (s.name a) h (s.subscribers a) s p
