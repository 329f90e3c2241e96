-- ===== src/StringDecoder/Trailing.antt =====
-- `_utf8IncompleteEnd` finds the character that the chunk breaks off.
use jaseci.Prelude.{
  ℕ, suc, ◌+◌, ◌-◌, ◌/◌, ◌%◌, ◌≤◌, false, List, [], ◌∷◌, ◌++◌, append_assoc, append-nil, ◌==◌, ltb,
  reverse, reverse-cons, reverse-append, ◌≡◌, ◌≢◌, refl, ap, sym, ◌∙◌, subst, arith, length,
  length-append, All, All-append, if◌then◌else◌,
}
use jaseci.Unicode.{Bytes, bytes, utf8}
use jaseci.Unicode.Cases.{IsPoint}
use jaseci.Slices.{utf8_char_length}
use jaseci.StringDecoder.{back_loop, utf8_incomplete_end}
use jaseci.StringDecoder.Boundary.{IsCont, bytes-IsChar}

back_loop-cont :
    (rounds available x : ℕ) (before : Bytes)
    → IsCont x
    → back_loop (suc rounds) available (x ∷ before) ≡ back_loop rounds (available + 1) before
unfolding back_loop
back_loop-cont rounds available x before h = rw h

-- The scan passes over continuation bytes and stops at a lead byte.
back_loop-lead :
    (conts : Bytes) (rounds available lead : ℕ) (before : Bytes)
    → All IsCont conts
    → (lead % 256 / 64 == 2) ≡ false
    → back_loop (length conts + suc rounds) available (conts ++ lead ∷ before) ≡ (
        if ltb (available + length conts) (utf8_char_length (lead % 256))
        then available + length conts
        else 0)
unfolding back_loop
back_loop-lead [] rounds available lead before h l =
    let e : 0 + suc rounds ≡ suc rounds = omega arith in
    let f : available + 0 ≡ available = omega arith in rw (e, f, l)
back_loop-lead (x ∷ conts) rounds available lead before h l =
    let e : suc (length conts) + suc rounds ≡ suc (length conts + suc rounds) = omega arith in
    let f : available + suc (length conts) ≡ available + 1 + length conts = omega arith in
    rw (e, f)
      (back_loop-cont (length conts + suc rounds) available x (conts ++ lead ∷ before) h.0
        ∙ back_loop-lead conts rounds (available + 1) lead before h.1 l)

All-reverse : (conts : Bytes) → All IsCont conts → All IsCont (reverse conts)
All-reverse [] h = tt
All-reverse (x ∷ conts) h =
    rw reverse-cons (All-append IsCont (reverse conts) (x ∷ []) (All-reverse conts h.1) (h.0, tt))

length-reverse : (xs : Bytes) → length (reverse xs) ≡ length xs
length-reverse [] = refl
length-reverse (x ∷ xs) = rw (reverse-cons, length-append, length-reverse xs) (omega arith)

-- The rounds that `maxBack` allows reach the lead byte of the last character.
utf8_incomplete_end-lead :
    (before : Bytes) (lead : ℕ) (conts : Bytes)
    → All IsCont conts
    → (lead % 256 / 64 == 2) ≡ false
    → length conts ≤ 3
    → utf8_incomplete_end (before ++ lead ∷ conts)
      ≡ (if ltb (1 + length conts) (utf8_char_length (lead % 256)) then 1 + length conts else 0)
unfolding utf8_incomplete_end
utf8_incomplete_end-lead before lead conts h l s =
    let len : length (before ++ lead ∷ conts) ≡ length before + suc (length conts) =
      length-append before (lead ∷ conts) in
    let k = length before + suc (length conts) in
    let rounds : ℕ = if ltb k 4 then k else 4 in
    let reached : rounds ≡ length (reverse conts) + suc (rounds - 1 - length conts) =
      ground (arith, length-reverse conts) in
    rw (len, reversed)
      (ap (λ n. back_loop n 1 (reverse conts ++ lead ∷ reverse before)) reached
        ∙ back_loop-lead (reverse conts) (rounds - 1 - length conts) 1 lead (reverse before)
            (All-reverse conts h) l
        ∙ ap (λ n. if ltb (1 + n) (utf8_char_length (lead % 256)) then 1 + n else 0)
            (length-reverse conts))
  where
    reversed : reverse (before ++ lead ∷ conts) ≡ reverse conts ++ lead ∷ reverse before
    reversed = rw (reverse-append, reverse-cons, append_assoc)

-- Behind whole characters nothing is incomplete.
utf8_incomplete_end-bytes :
    (before : Bytes) (c : ℕ) → IsPoint c → utf8_incomplete_end (before ++ bytes c) ≡ 0
utf8_incomplete_end-bytes before c h =
    let s = bytes-IsChar c h in
    let full : utf8_char_length (s.lead % 256) ≡ suc (length s.tail) = s.counted ∙ ap length s.is in
    ap (λ (b : Bytes). utf8_incomplete_end (before ++ b)) s.is
    ∙ utf8_incomplete_end-lead before s.lead s.tail s.conts s.is_lead s.short
    ∙ ground arith

pub utf8_incomplete_end-utf8 : (cs : List ℕ) → All IsPoint cs → utf8_incomplete_end (utf8 cs) ≡ 0
unfolding utf8_incomplete_end back_loop
utf8_incomplete_end-utf8 [] h = refl
utf8_incomplete_end-utf8 (c ∷ cs) h = go [] c cs h
  where
    go :
        (before : Bytes) (c : ℕ) (cs : List ℕ)
        → All IsPoint (c ∷ cs)
        → utf8_incomplete_end (before ++ utf8 (c ∷ cs)) ≡ 0
    go before c [] h =
        ap (λ (b : Bytes). utf8_incomplete_end (before ++ b)) (append-nil (bytes c))
        ∙ utf8_incomplete_end-bytes before c h.0
    go before c (d ∷ cs) h =
        ap utf8_incomplete_end (sym (append_assoc before (bytes c) (utf8 (d ∷ cs))))
        ∙ go (before ++ bytes c) d cs h.1

All-left : (a b : Bytes) → All IsCont (a ++ b) → All IsCont a
All-left [] b h = tt
All-left (x ∷ a) b h = (h.0, All-left a b h.1)

-- A proper beginning of a character is found, with its length.
pub utf8_incomplete_end-begun :
    (before begun missing : Bytes) (c : ℕ)
    → IsPoint c
    → bytes c ≡ begun ++ missing
    → begun ≢ []
    → missing ≢ []
    → utf8_incomplete_end (before ++ begun) ≡ length begun
utf8_incomplete_end-begun before [] missing c h e b m = absurd (b refl)
utf8_incomplete_end-begun before (x ∷ begun) [] c h e b m = absurd (m refl)
utf8_incomplete_end-begun before (x ∷ begun) (y ∷ missing) c h e b m =
    let s = bytes-IsChar c h in
    let same : s.lead ∷ s.tail ≡ x ∷ (begun ++ y ∷ missing) = sym s.is ∙ e in
    let lead : s.lead ≡ x = cc in
    let tail : s.tail ≡ begun ++ y ∷ missing = cc in
    let len : length s.tail ≡ length begun + suc (length missing) =
      ap length tail ∙ length-append begun (y ∷ missing) in
    let size : utf8_char_length (x % 256) ≡ suc (length s.tail) =
      ap (λ l. utf8_char_length (l % 256)) (sym lead) ∙ s.counted ∙ ap length s.is in
    let is_lead : (x % 256 / 64 == 2) ≡ false =
      subst (λ l. (l % 256 / 64 == 2) ≡ false) lead s.is_lead in
    utf8_incomplete_end-lead before x begun
      (All-left begun (y ∷ missing) (subst (All IsCont) tail s.conts)) is_lead
      (omega (arith, s.short))
    ∙ ground arith
