-- ===== src/Numerals/Decimal.antt =====
-- A number that is written in base 10 is read back by `Number`.
use jaseci.Prelude.{
  ℕ, suc, ◌<◌, true, false, ◌||◌, List, [], ◌∷◌, map, reverse, reverse-cons, reverse-reverse, ◌==◌,
  eq→==, Str, ◌≡◌, refl, ap, subst, sym, ◌∙◌, arith, All, All-append, length,
}
use jaseci.Numerals.{
  digit, to_string, horner, is_space, trim_start, trim, integer, all_digits, trimmed_number,
  to_number,
}
use jaseci.Numerals.Laws.{Digits, digit_plain, leading_digits-map, to_string-IsWritten, &&-false}

length-map : (ds : List ℕ) → length (map digit ds) ≡ length ds
length-map [] = refl
length-map (d ∷ ds) = ap suc (length-map ds)

-- A text without white space.
abbrev pub Solid : Str → Type 0
Solid = All (λ c. is_space c ≡ false)

trim_start-Solid : (s : Str) → Solid s → trim_start s ≡ s
unfolding trim_start
trim_start-Solid [] h = refl
trim_start-Solid (c ∷ s) h = rw (h.0, trim_start) refl

reverse-Solid : (s : Str) → Solid s → Solid (reverse s)
reverse-Solid [] h = tt
reverse-Solid (c ∷ s) h =
    subst Solid (sym (reverse-cons c s))
      (All-append (λ x. is_space x ≡ false) (reverse s) (c ∷ []) (reverse-Solid s h.1) (h.0, tt))

pub trim-Solid : (s : Str) → Solid s → trim s ≡ s
unfolding trim
trim-Solid s h =
    ap (λ (x : Str). reverse (trim_start (reverse x))) (trim_start-Solid s h)
    ∙ ap reverse (trim_start-Solid (reverse s) (reverse-Solid s h))
    ∙ reverse-reverse s

map-Solid : (ds : List ℕ) → Digits 10 ds → Solid (map digit ds)
map-Solid [] h = tt
map-Solid (d ∷ ds) h = ((digit_plain d (omega (arith, h.0))).0, map-Solid ds h.1)

all_digits-map :
    (ds : List ℕ) → Digits 10 ds → all_digits 10 (map digit ds) ≡ integer (horner 10 0 ds)
unfolding all_digits
all_digits-map ds h =
    let same : (length ds == length (map digit ds)) ≡ true = eq→== _ _ (sym (length-map ds)) in
    rw (leading_digits-map 10 ds (omega arith) h, all_digits, same) refl

-- A decimal digit makes no prefix of another base.
no_prefix :
    (d : ℕ)
    → d < 10
    → ((digit d == b'x' || digit d == b'X') ≡ false)
      × ((digit d == b'o' || digit d == b'O') ≡ false)
      × ((digit d == b'b' || digit d == b'B') ≡ false)
unfolding digit
no_prefix d h = ground arith

trimmed_number-map :
    (d : ℕ) (ds : List ℕ)
    → Digits 10 (d ∷ ds)
    → trimmed_number (map digit (d ∷ ds)) ≡ integer (horner 10 0 (d ∷ ds))
unfolding trimmed_number
trimmed_number-map d [] h = all_digits-map (d ∷ []) h
trimmed_number-map d (e ∷ []) h = all_digits-map (d ∷ e ∷ []) h
trimmed_number-map d (e ∷ f ∷ ds) h =
    let (no_x, no_o, no_b) = no_prefix e h.1.0 in
    rw
      (
        &&-false (digit d == b'0') _ no_x,
        &&-false (digit d == b'0') _ no_o,
        &&-false (digit d == b'0') _ no_b,
      )
      (all_digits-map (d ∷ e ∷ f ∷ ds) h)

pub to_number-to_string : (n : ℕ) → to_number (to_string 10 n) ≡ integer n
unfolding to_number
to_number-to_string n =
    let w = to_string-IsWritten 10 n (omega arith) in
    let ds = w.first ∷ w.others in
    ap to_number w.units
    ∙ ap trimmed_number (trim-Solid (map digit ds) (map-Solid ds w.digits))
    ∙ trimmed_number-map w.first w.others w.digits
    ∙ ap integer w.value
