-- ===== src/StringDecoder/Session.antt =====
-- A whole session: some chunks are written, then the decoder is ended.
use jaseci.Prelude.{
  ℕ, false, List, [], ◌∷◌, ◌++◌, append_assoc, append-nil, Option, ◌≡◌, ◌≢◌, inl, inr, refl, ap,
  ap₂, sym, ◌∙◌, subst, arith, length, All, Str, length-cons-ne-zero, ltb,
}
use mathlib.Core.List.{flatten}
use jaseci.Unicode
use jaseci.Unicode.{Bytes, bytes, utf16}
use jaseci.Unicode.Cases.{IsPoint, bytes-ne-nil}
use jaseci.Slices.{utf8, normalize_encoding}
use jaseci.StringDecoder.{Decoder, missing, buffer, new, write_buffer, write, end}
use jaseci.StringDecoder.Stream.{Holds, Ready, Wrote, write_utf8-Wrote}

-- What the caller reads after writing the chunks in turn.
unfoldable pub write_all : Decoder → List Bytes → Decoder × Str
write_all d [] = (d, [])
write_all d (x ∷ chunks) =
    let (d', out) = write d (buffer x) in
    let (d'', more) = write_all d' chunks in (d'', out ++ more)

-- What the caller reads in all.
unfoldable pub decode_chunks : Decoder → List Bytes → Str
unfolding write_all
decode_chunks d chunks = let (d', out) = write_all d chunks in out ++ (end d' missing).1

pub write-buffer :
    (d : Decoder) (b : ℕ) (x : Bytes) → write d (buffer (b ∷ x)) ≡ write_buffer d.encoding d (b ∷ x)
unfolding write
write-buffer d b x = rw length-cons-ne-zero

pub write-nil : (d : Decoder) → write d (buffer []) ≡ (d, [])
unfolding write
write-nil d = refl

write-Wrote :
    (d : Decoder) (x y : Bytes) (cs : List ℕ)
    → Ready d (x ++ y) cs
    → Wrote (write d (buffer x)) y cs
write-Wrote d [] y cs r =
    subst (λ w. Wrote w y cs) (sym (write-nil d))
      (record { done = []; left = cs; all = refl; out = refl; ready = r })
write-Wrote d (b ∷ x) y cs r =
    subst (λ w. Wrote w y cs) (sym (write-buffer d b x ∙ ap (λ e. write_buffer e d (b ∷ x)) r.enc))
      (write_utf8-Wrote d (b ∷ x) y cs r)

utf16-append : (a b : List ℕ) → utf16 (a ++ b) ≡ utf16 a ++ utf16 b
utf16-append [] b = refl
utf16-append (c ∷ a) b =
    rw (utf16-append a b) (sym (append_assoc (Unicode.units c) (utf16 a) (utf16 b)))

write_all-Wrote :
    (chunks : List Bytes) (d : Decoder) (cs : List ℕ)
    → Ready d (flatten chunks) cs
    → Wrote (write_all d chunks) [] cs
unfolding write_all flatten
write_all-Wrote [] d cs r = record { done = []; left = cs; all = refl; out = refl; ready = r }
write_all-Wrote (x ∷ chunks) d cs r =
    let w = write-Wrote d x (flatten chunks) cs r in
    let v = write_all-Wrote chunks (write d (buffer x)).0 w.left w.ready in
    record {
      done = w.done ++ v.done;
      left = v.left;
      all =
          w.all ∙ ap (λ (s : List ℕ). w.done ++ s) v.all ∙ sym (append_assoc w.done v.done v.left);
      out = ap₂ (λ (a b : Str). a ++ b) w.out v.out ∙ sym (utf16-append w.done v.done);
      ready = v.ready;
    }

utf8-nil : (cs : List ℕ) → [] ≡ Unicode.utf8 cs → cs ≡ []
utf8-nil [] e = refl
utf8-nil (c ∷ cs) e = absurd (no (bytes c) (bytes-ne-nil c) e)
  where
    no : (b : Bytes) → b ≢ [] → [] ≢ b ++ Unicode.utf8 cs
    no [] h = absurd (h refl)
    no (_ ∷ b) h = λ e. cc

not_inside : (d : Decoder) (left : List ℕ) → ¬ Holds d [] left
not_inside d left h = no h.inside.missing _ h.inside.missing_ne h.inside.follows
  where
    no : (q z : Bytes) → q ≢ [] → [] ≢ q ++ z
    no [] z h = absurd (h refl)
    no (_ ∷ q) z h = λ e. cc

-- At the end nothing is buffered, and no character is left.
Ready-nil : (d : Decoder) (left : List ℕ) → Ready d [] left → (d.buf ≡ []) × (left ≡ [])
Ready-nil d left r = elim r.state [
  | inl z ↦ (z, utf8-nil left (sym z ∙ sym (append-nil d.buf) ∙ r.whole))
  | inr h ↦ absurd (not_inside d left h)
]

end-empty : (d : Decoder) → d.buf ≡ [] → (end d missing).1 ≡ []
unfolding end write
end-empty d e =
    let n : length d.buf ≡ 0 = ap length e in
    let t : ltb 0 (length d.buf) ≡ false = ground arith in rw t

-- A decoder whose encoding is UTF-8 is given well-formed bytes, cut into chunks anywhere. What the
-- writes and the end return, taken together, is exactly the text of the code points.
pub decode_chunks-utf8 :
    (enc : Option Str) (cs : List ℕ) (chunks : List Bytes)
    → normalize_encoding enc ≡ utf8
    → All IsPoint cs
    → flatten chunks ≡ Unicode.utf8 cs
    → decode_chunks (new enc) chunks ≡ utf16 cs
unfolding decode_chunks new
decode_chunks-utf8 enc cs chunks u h e =
    let w =
      write_all-Wrote chunks (new enc) cs
        (record { enc = u; points = h; whole = e; state = inl refl }) in
    let (z, l) = Ready-nil (write_all (new enc) chunks).0 w.left w.ready in
    let full : cs ≡ w.done = w.all ∙ ap (λ (s : List ℕ). w.done ++ s) l ∙ append-nil w.done in
    ap₂ (λ (a b : Str). a ++ b) w.out (end-empty (write_all (new enc) chunks).0 z)
    ∙ append-nil (utf16 w.done)
    ∙ ap utf16 (sym full)
