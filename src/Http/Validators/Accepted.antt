-- ===== src/Http/Validators/Accepted.antt =====
-- What the validators of http_core.js accept.
use jaseci.Prelude.{
  ℕ, ◌<◌, false, [], ◌∷◌, Str, length, All, ◌≡◌, ◌≢◌, ◌↔◌, refl, sym, ◌∙◌, Bool-cases, inl, inr,
  arith,
}
use jaseci.Http.{cr, lf}
use jaseci.Http.Validators.{
  Check, valid, refused_in_name, check_name, refused_in_value, validate_header_name,
  validate_header_value,
}

-- A unit of a name: visible, of Latin-1, and no separator of a message.
abbrev pub IsNameUnit : ℕ → Type 0
IsNameUnit c = (c ≢ b':') × (c ≢ cr) × (c ≢ lf) × (c ≢ b' ') × (c < 256)

abbrev pub IsValueUnit : ℕ → Type 0
IsValueUnit c = (c ≢ cr) × (c ≢ lf) × (c ≢ 0) × (c < 256)

name_unit : (c : ℕ) → refused_in_name c ≡ false → IsNameUnit c
unfolding refused_in_name
name_unit c h = ground arith

check_name-valid : (name : Str) → check_name name ≡ valid → All IsNameUnit name
unfolding check_name
check_name-valid [] h = tt
check_name-valid (c ∷ name) h = elim (Bool-cases (refused_in_name c)) [
  | inl e ↦
      let t : check_name (c ∷ name) ≡ Check.invalid_http_token = rw (e, check_name) refl in
      absurd (cc)
  | inr e ↦
      let t : check_name (c ∷ name) ≡ check_name name = rw (e, check_name) refl in
      (name_unit c e, check_name-valid name (sym t ∙ h))
]

-- A name that is accepted is not empty, and has no colon, space, CR, LF or unit above 255.
pub validate_header_name-valid :
    (name : Str) → validate_header_name name ≡ valid → (0 < length name) × All IsNameUnit name
unfolding validate_header_name
validate_header_name-valid [] h = absurd (cc)
validate_header_name-valid (c ∷ name) h = (omega arith, check_name-valid (c ∷ name) h)

value_unit : (c : ℕ) → refused_in_value c ≡ false → IsValueUnit c
unfolding refused_in_value
value_unit c h = ground arith

value_unit_accepted : (c : ℕ) → IsValueUnit c → refused_in_value c ≡ false
unfolding refused_in_value
value_unit_accepted c h = ground arith

value_units : (value : Str) → validate_header_value value ≡ valid → All IsValueUnit value
unfolding validate_header_value
value_units [] h = tt
value_units (c ∷ value) h = elim (Bool-cases (refused_in_value c)) [
  | inl e ↦
      let t : validate_header_value (c ∷ value) ≡ Check.invalid_char =
        rw (e, validate_header_value) refl in
      absurd (cc)
  | inr e ↦
      let t : validate_header_value (c ∷ value) ≡ validate_header_value value =
        rw (e, validate_header_value) refl in
      (value_unit c e, value_units value (sym t ∙ h))
]

value_units_accepted : (value : Str) → All IsValueUnit value → validate_header_value value ≡ valid
unfolding validate_header_value
value_units_accepted [] h = refl
value_units_accepted (c ∷ value) h =
    rw (value_unit_accepted c h.0, validate_header_value) (value_units_accepted value h.1)

-- Exactly the values without CR, LF, the unit 0 and units above 255 are accepted.
pub validate_header_value-valid_iff :
    (value : Str) → (validate_header_value value ≡ valid) ↔ All IsValueUnit value
validate_header_value-valid_iff value = (value_units value, value_units_accepted value)
