-- ===== src/SearchParams/Written.antt =====
-- What `toString` of URLSearchParams in url.js writes is read back.
use jaseci.Prelude.{
  suc, ◌-◌, false, List, [], ◌∷◌, ◌++◌, some, ◌==◌, if◌then◌else◌, Str, Free, All, All-append,
  length, length-append, drop-next, split, join, split-join, index_of, index_of-append, take-append,
  ◌≡◌, ◌≢◌, refl, ap, sym, ◌∙◌, arith, ne→==,
}
use jaseci.Querystring.{escape}
use jaseci.Querystring.Objects.Pairs.{IsClean}
use jaseci.SearchParams.{
  Pair, read_pair, read_pairs, strip_mark, parse_string, write_pairs, to_text, mark,
}
use jaseci.SearchParams.Encoding.{
  IsPlain, IsUnmarked, sp_encode-escape, sp_decode-escape, escaped-IsClean, escape-IsUnmarked,
}

abbrev pub IsPlainPair : Pair → Type 0
IsPlainPair p = IsPlain p.0 × IsPlain p.1

abbrev pair_text : Pair → Str
pair_text p = escape p.0 ++ b'=' ∷ escape p.1

abbrev pair_texts : List Pair → List Str
pair_texts [] = []
pair_texts (p ∷ list) = pair_text p ∷ pair_texts list

write_pairs-texts :
    (list : List Pair) → All IsPlainPair list → write_pairs list ≡ some (pair_texts list)
unfolding write_pairs
write_pairs-texts [] h = refl
write_pairs-texts ((k, v) ∷ list) h =
    rw (sp_encode-escape k h.0.0, write_pairs, sp_encode-escape v h.0.1, write_pairs-texts list h.1)
      refl

no_equals : (s : Str) → All IsClean s → Free b'=' s
no_equals [] h = tt
no_equals (c ∷ s) h = (h.0.1, no_equals s h.1)

no_ampersand : (s : Str) → All IsClean s → Free b'&' s
no_ampersand [] h = tt
no_ampersand (c ∷ s) h = (h.0.0, no_ampersand s h.1)

pair_text-Free : (p : Pair) → IsPlainPair p → Free b'&' (pair_text p)
pair_text-Free (k, v) h =
    All-append (λ c. c ≢ b'&') (escape k) (b'=' ∷ escape v)
      (no_ampersand (escape k) (escaped-IsClean k h.0))
      (omega arith, no_ampersand (escape v) (escaped-IsClean v h.1))

pair_texts-Free : (list : List Pair) → All IsPlainPair list → All (Free b'&') (pair_texts list)
pair_texts-Free [] h = tt
pair_texts-Free (p ∷ list) h = (pair_text-Free p h.0, pair_texts-Free list h.1)

read_pair-pair_text : (p : Pair) → IsPlainPair p → read_pair (pair_text p) ≡ p
unfolding read_pair
read_pair-pair_text (k, v) h =
    let a = escape k in
    let b = escape v in
    let at : index_of (a ++ b'=' ∷ b) b'=' ≡ suc (length a) =
      index_of-append b'=' a b (no_equals a (escaped-IsClean k h.0)) in
    let back : suc (length a) - 1 ≡ length a = omega arith in
    let more : (suc (length a) == 0) ≡ false = ne→== _ _ (λ e. absurd (omega arith)) in
    rw
      (
        at,
        more,
        back,
        take-append a (b'=' ∷ b),
        drop-next a b'=' b,
        sp_decode-escape k h.0,
        sp_decode-escape v h.1,
      )
      refl

pair_text-some : (p : Pair) → (length (pair_text p) == 0) ≡ false
pair_text-some p =
    ne→== _ _ (λ e. absurd (omega (arith, length-append (escape p.0) (b'=' ∷ escape p.1))))

read_pairs-texts : (list : List Pair) → All IsPlainPair list → read_pairs (pair_texts list) ≡ list
unfolding read_pairs
read_pairs-texts [] h = refl
read_pairs-texts (p ∷ list) h =
    rw (pair_text-some p, read_pairs, read_pair-pair_text p h.0, read_pairs-texts list h.1) refl

-- A text that does not start with a question mark, and is not empty.
abbrev Starts : Str → Type 0
Starts [] = ⊥
Starts (c ∷ s) = c ≢ b'?'

Starts-pair : (a t : Str) → All IsUnmarked a → Starts (a ++ b'=' ∷ t)
Starts-pair [] t h = omega arith
Starts-pair (c ∷ a) t h = h.0

Starts-append : (a t : Str) → Starts a → Starts (a ++ t)
Starts-append [] t h = absurd h
Starts-append (c ∷ a) t h = h

join-Starts :
    (p : Pair) (list : List Pair) → IsPlainPair p → Starts (join b'&' (pair_texts (p ∷ list)))
unfolding join
join-Starts (k, v) [] h = Starts-pair (escape k) (escape v) (escape-IsUnmarked k h.0)
join-Starts (k, v) (q ∷ list) h =
    Starts-append (pair_text (k, v)) (b'&' ∷ join b'&' (pair_texts (q ∷ list)))
      (Starts-pair (escape k) (escape v) (escape-IsUnmarked k h.0))

Starts-some : (s : Str) → Starts s → (length s == 0) ≡ false
Starts-some [] h = absurd h
Starts-some (c ∷ s) h = ne→== _ _ (λ e. absurd (omega arith))

strip_mark-Starts : (s : Str) → Starts s → strip_mark s ≡ s
unfolding strip_mark
strip_mark-Starts [] h = absurd h
strip_mark-Starts (c ∷ s) h = rw (ne→== c b'?' h, strip_mark) refl

parse_string-mark : (s : Str) → Starts s → parse_string (b'?' ∷ s) ≡ parse_string s
unfolding parse_string
parse_string-mark s h =
    ap (λ (x : Str). if length x == 0 then [] else read_pairs (split b'&' x))
      ((unfold strip_mark in refl) ∙ sym (strip_mark-Starts s h))

parse_string-join :
    (p : Pair) (list : List Pair)
    → All IsPlainPair (p ∷ list)
    → parse_string (join b'&' (pair_texts (p ∷ list))) ≡ p ∷ list
unfolding parse_string
parse_string-join p list h =
    let t = join b'&' (pair_texts (p ∷ list)) in
    let starts = join-Starts p list h.0 in
    rw
      (
        strip_mark-Starts t starts,
        Starts-some t starts,
        split-join b'&' (pair_texts (p ∷ list)) (λ e. cc) (pair_texts-Free (p ∷ list) h),
      )
      (read_pairs-texts (p ∷ list) h)

mark-Starts : (s : Str) → Starts s → mark s ≡ b'?' ∷ s
unfolding mark
mark-Starts [] h = absurd h
mark-Starts (c ∷ s) h = refl

-- A list of names and values without surrogates has a text, and the text is parsed to the list, with a
-- question mark in front (if it is not empty) or without.
pub parse_string-to_text :
    (list : List Pair)
    → All IsPlainPair list
    → (t : Str) × (to_text list ≡ some t) × (parse_string t ≡ list) × (parse_string (mark t) ≡ list)
unfolding to_text
parse_string-to_text [] h = (
  [],
  unfold write_pairs join in refl,
  unfold parse_string strip_mark in refl,
  unfold parse_string strip_mark mark in refl,
)
parse_string-to_text (p ∷ list) h =
    let t = join b'&' (pair_texts (p ∷ list)) in
    let starts = join-Starts p list h.0 in
    let back = parse_string-join p list h in
    (
      t,
      rw (write_pairs-texts (p ∷ list) h, to_text) refl,
      back,
      ap parse_string (mark-Starts t starts) ∙ parse_string-mark t starts ∙ back,
    )
