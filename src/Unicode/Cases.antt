-- ===== src/Unicode/Cases.antt =====
-- The four lengths of a code point in UTF-8, as one case distinction.
use jaseci.Prelude.{
  ℕ, ◌+◌, ◌-◌, ◌/◌, ◌%◌, ◌<◌, ◌≤◌, true, [], ◌∷◌, ltb, ltb→lt, ltb→le, lt→ltb, Bool-cases, inl, inr,
  ◌≡◌, ◌≢◌, arith, Str, All, List,
}
use jaseci.Unicode.{Bytes, units, bytes, Scalars}

abbrev pub two : ℕ → Bytes
two c = (0xc0 + c / 64) ∷ (0x80 + c % 64) ∷ []

abbrev pub three : ℕ → Bytes
three c = (0xe0 + c / 4096) ∷ (0x80 + c / 64 % 64) ∷ (0x80 + c % 64) ∷ []

abbrev pub four : ℕ → Bytes
four c = (0xf0 + c / 262144) ∷ (0x80 + c / 4096 % 64) ∷ (0x80 + c / 64 % 64) ∷ (0x80 + c % 64) ∷ []

abbrev pub pair : ℕ → Str
pair c = (0xd800 + (c - 0x10000) / 1024) ∷ (0xdc00 + (c - 0x10000) % 1024) ∷ []

-- To show something of the bytes and the units of a code point, show it for each length.
pub bytes_cases {ℓ} :
    (P : Bytes → Str → Type ℓ) (c : ℕ)
    → (c < 0x80 → P (c ∷ []) (c ∷ []))
    → (0x80 ≤ c → c < 0x800 → P (two c) (c ∷ []))
    → (0x800 ≤ c → c < 0x10000 → P (three c) (c ∷ []))
    → (0x10000 ≤ c → P (four c) (pair c))
    → P (bytes c) (units c)
bytes_cases P c f1 f2 f3 f4 = elim (Bool-cases (ltb c 0x80)) [
  | inl e ↦
      let u : ltb c 0x10000 ≡ true = lt→ltb _ _ (omega (arith, ltb→lt c 0x80 e)) in
      rw (e, u) (f1 (ltb→lt c 0x80 e))
  | inr e ↦ elim (Bool-cases (ltb c 0x800)) [
    | inl f ↦
        let u : ltb c 0x10000 ≡ true = lt→ltb _ _ (omega (arith, ltb→lt c 0x800 f)) in
        rw (e, f, u) (f2 (ltb→le c 0x80 e) (ltb→lt c 0x800 f))
    | inr f ↦ elim (Bool-cases (ltb c 0x10000)) [
      | inl g ↦ rw (e, f, g) (f3 (ltb→le c 0x800 f) (ltb→lt c 0x10000 g))
      | inr g ↦ rw (e, f, g) (f4 (ltb→le c 0x10000 g))
    ]
  ]
]

abbrev pub IsPoint : ℕ → Type 0
IsPoint c = c < 0x110000

pub bytes-ne-nil : (c : ℕ) → bytes c ≢ []
bytes-ne-nil c =
    bytes_cases (λ b u. b ≢ []) c (λ h. (λ e. cc)) (λ h k. (λ e. cc)) (λ h k. (λ e. cc))
      (λ h. (λ e. cc))

pub points : (cs : List ℕ) → Scalars cs → All IsPoint cs
points [] h = tt
points (c ∷ cs) h = (h.0.0, points cs h.1)
