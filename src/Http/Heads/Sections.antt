-- ===== src/Http/Heads/Sections.antt =====
-- Where the head of a message ends, for http_core.js.
use jaseci.Prelude.{
  ℕ, zero, suc, ◌+◌, ◌≤◌, ◌<◌, true, false, List, [], ◌∷◌, ◌++◌, Option, none, some, ltb, ◌==◌, Str,
  Free, All, length, ◌≡◌, ◌≢◌, refl, ap, ap₂, subst, sym, ◌∙◌, arith, append_assoc, drop-append,
  length-append, ne→==, lt→ltb, shift, index_of_text, starts_with,
}
use jaseci.Http.{cr, lf, crlf, ended, crlf_index, find_crlf, split_loop, split_header_lines}
use jaseci.Http.Lines.{find_crlf-append, slice-middle}

-- Lines with CR LF between them.
abbrev pub between : List Str → Str
between [] = []
between (s ∷ []) = s
between (s ∷ t ∷ lines) = s ++ (crlf ++ between (t ∷ lines))

pub ended-between : (s : Str) (lines : List Str) → ended (s ∷ lines) ≡ between (s ∷ lines) ++ crlf
unfolding ended
ended-between s [] = refl
ended-between s (t ∷ lines) =
    ap (λ (x : Str). s ++ (crlf ++ x)) (ended-between t lines)
    ∙ sym (append_assoc s (crlf ++ between (t ∷ lines)) crlf)

-- A line that has something in it, and no CR.
abbrev pub IsLine : Str → Type 0
IsLine s = (0 < length s) × Free cr s

shift-shift : (m n : ℕ) (o : Option ℕ) → shift m (shift n o) ≡ shift (m + n) o
shift-shift m n none = refl
shift-shift m n (some i) = ap some (omega arith)

shift-zero : (o : Option ℕ) → shift 0 o ≡ o
shift-zero none = refl
shift-zero (some i) = ap some (omega arith)

-- Nothing that starts with a CR starts in a text without one.
index_of_text-skip :
    (pattern s t : Str)
    → Free cr s
    → index_of_text (cr ∷ pattern) (s ++ t) ≡ shift (length s) (index_of_text (cr ∷ pattern) t)
unfolding index_of_text starts_with
index_of_text-skip pattern [] t h = sym (shift-zero _)
index_of_text-skip pattern (c ∷ s) t h =
    let differ : (cr == c) ≡ false = ne→== cr c (λ e. h.0 (sym e)) in
    rw (differ, starts_with)
      (ap (shift 1) (index_of_text-skip pattern s t h.1)
        ∙ shift-shift 1 (length s) _
        ∙ ap (λ (n : ℕ). shift n (index_of_text (cr ∷ pattern) t)) (omega arith))

-- A text that starts with something else than a CR.
abbrev StartsPlain : Str → Type 0
StartsPlain [] = ⊥
StartsPlain (c ∷ s) = c ≢ cr

IsLine-StartsPlain : (s t : Str) → IsLine s → StartsPlain (s ++ t)
IsLine-StartsPlain [] t h = absurd (omega (arith, h.0))
IsLine-StartsPlain (c ∷ s) t h = h.1.0

between-StartsPlain :
    (s : Str) (lines : List Str) (t : Str) → IsLine s → StartsPlain (between (s ∷ lines) ++ t)
between-StartsPlain s [] t h = IsLine-StartsPlain s t h
between-StartsPlain s (r ∷ lines) t h =
    subst StartsPlain (sym (append_assoc s (crlf ++ between (r ∷ lines)) t))
      (IsLine-StartsPlain s _ h)

-- One CR LF with a line behind it is no end of a head.
index_of_text-one :
    (s : Str)
    → StartsPlain s
    → index_of_text (crlf ++ crlf) (crlf ++ s) ≡ shift 2 (index_of_text (crlf ++ crlf) s)
unfolding index_of_text starts_with
index_of_text-one [] h = absurd h
index_of_text-one (c ∷ s) h =
    let differ : (cr == c) ≡ false = ne→== cr c (λ e. h (sym e)) in
    rw (differ, starts_with) (shift-shift 1 1 _)

-- The head ends behind the last of its lines.
pub index_of_text-between :
    (s : Str) (lines : List Str) (body : Str)
    → All IsLine (s ∷ lines)
    → index_of_text (crlf ++ crlf) (between (s ∷ lines) ++ (crlf ++ (crlf ++ body)))
      ≡ some (length (between (s ∷ lines)))
index_of_text-between s [] body h =
    index_of_text-skip (lf ∷ crlf) s (crlf ++ (crlf ++ body)) h.0.1
    ∙ (unfold index_of_text starts_with in ap some (omega arith))
index_of_text-between s (t ∷ lines) body h =
    let end = crlf ++ (crlf ++ body) in
    let u = between (t ∷ lines) in
    ap (index_of_text (crlf ++ crlf)) (append_assoc s (crlf ++ u) end)
    ∙ index_of_text-skip (lf ∷ crlf) s (crlf ++ (u ++ end)) h.0.1
    ∙ ap (shift (length s)) (
        index_of_text-one (u ++ end) (between-StartsPlain t lines end h.1.0)
        ∙ ap (shift 2) (index_of_text-between t lines body h.1))
    ∙ ap some (omega (arith, length-append s (crlf ++ u)))

crlf_index-none : (s : Str) → Free cr s → crlf_index s ≡ none
unfolding crlf_index
crlf_index-none [] h = refl
crlf_index-none (c ∷ []) h = refl
crlf_index-none (c ∷ d ∷ s) h = rw (ne→== c cr h.0, crlf_index, crlf_index-none (d ∷ s) h.1) refl

split_loop-between :
    (fuel : ℕ) (pre s : Str) (lines : List Str)
    → All IsLine (s ∷ lines)
    → length (between (s ∷ lines)) ≤ fuel
    → split_loop fuel (pre ++ between (s ∷ lines)) (length pre) ≡ s ∷ lines
unfolding split_loop
split_loop-between zero pre s [] h k = absurd (omega (arith, h.0.0))
split_loop-between zero pre s (t ∷ lines) h k =
    absurd (omega (arith, length-append s (crlf ++ between (t ∷ lines))))
split_loop-between (suc fuel) pre s [] h k =
    let more : ltb (length pre) (length (pre ++ s)) ≡ true =
      lt→ltb _ _ (omega (arith, length-append pre s, h.0.0)) in
    let last : find_crlf (pre ++ s) (length pre) ≡ none =
      unfold find_crlf in
      ap (λ (x : Str). shift (length pre) (crlf_index x)) (drop-append pre s)
      ∙ ap (shift (length pre)) (crlf_index-none s h.0.1) in
    rw (more, split_loop, last) (ap (λ (x : Str). x ∷ []) (drop-append pre s))
split_loop-between (suc fuel) pre s (t ∷ lines) h k =
    let u = between (t ∷ lines) in
    let size = length-append pre (s ++ (crlf ++ u)) in
    let size' = length-append s (crlf ++ u) in
    let more : ltb (length pre) (length (pre ++ (s ++ (crlf ++ u)))) ≡ true =
      lt→ltb _ _ (omega arith) in
    let again : pre ++ (s ++ (crlf ++ u)) ≡ (pre ++ (s ++ crlf)) ++ u = simp append_assoc in
    let next : length pre + length s + 2 ≡ length (pre ++ (s ++ crlf)) =
      omega (arith, length-append pre (s ++ crlf), length-append s crlf) in
    rw (more, split_loop, find_crlf-append pre s u h.0.1)
      (ap₂ ◌∷◌ (slice-middle pre s (crlf ++ u)) (
        ap₂ (split_loop fuel) again next
        ∙ split_loop-between fuel (pre ++ (s ++ crlf)) t lines h.1 (omega arith)))

-- Lines that have something in them, with CR LF between them, are split as they were.
pub split_header_lines-between :
    (s : Str) (lines : List Str)
    → All IsLine (s ∷ lines)
    → split_header_lines (between (s ∷ lines)) ≡ s ∷ lines
unfolding split_header_lines
split_header_lines-between s lines h =
    split_loop-between (length (between (s ∷ lines))) [] s lines h (omega arith)
