-- ===== src/StringDecoder/Pairs.antt =====
-- UTF-16LE output does not depend on how the bytes are cut into chunks.
use jaseci.Prelude.{
  ap₂, lt→ltb, ℕ, zero, suc, ◌+◌, ◌-◌, ◌*◌, ◌/◌, ◌%◌, ◌≤◌, true, List, [], ◌∷◌, ◌++◌, append_assoc,
  append-nil, Option, ◌≡◌, inl, inr, refl, ap, sym, subst, ◌∙◌, arith, length, length-take,
  length-drop, take, drop, take-append-drop, if◌then◌else◌, Str, ltb, ◌==◌, Bool-cases, ==→eq,
}
use mathlib.Core.List.{flatten, map-append}
use jaseci.Unicode.{Bytes}
use jaseci.Slices.{Encoding, utf16le, normalize_encoding, decode_utf16le}
use jaseci.StringDecoder.{
  Decoder, missing, buffer, new, masked, write_buffer, write_pairs, write_utf16le, write, flush,
  end,
}
use jaseci.StringDecoder.Session.{write_all, decode_chunks, write-buffer, write-nil}

-- What `write` and `end` make of all the bytes: pairs, and an odd byte at the end as it is.
pub text_of : Bytes → Str
text_of (b0 ∷ b1 ∷ buf) = (b0 % 256 + b1 % 256 * 256) ∷ text_of buf
text_of buf = buf

-- Whole pairs are decoded by themselves.
text_of-append :
    (pairs : ℕ) (a b : Bytes)
    → length a ≡ pairs * 2
    → text_of (a ++ b) ≡ decode_utf16le a ++ text_of b
unfolding text_of decode_utf16le
text_of-append zero [] b h = refl
text_of-append zero (_ ∷ _) b h = absurd (omega arith)
text_of-append (suc n) [] b h = absurd (omega arith)
text_of-append (suc n) (_ ∷ []) b h = absurd (omega arith)
text_of-append (suc n) (x ∷ y ∷ a) b h = rw (text_of-append n a b (omega arith))

decode_utf16le-masked : (a : Bytes) → decode_utf16le (masked a) ≡ decode_utf16le a
unfolding decode_utf16le
decode_utf16le-masked [] = refl
decode_utf16le-masked (_ ∷ []) = refl
decode_utf16le-masked (x ∷ y ∷ a) =
    let p : x % 256 % 256 ≡ x % 256 = omega arith in
    let q : y % 256 % 256 ≡ y % 256 = omega arith in rw (p, q, decode_utf16le-masked a)

length-masked : (x : Bytes) → length (masked x) ≡ length x
length-masked [] = refl
length-masked (_ ∷ x) = ap suc (length-masked x)

-- The decoder keeps at most one byte, and its text with all that follows is unchanged.
record Kept (d : Decoder) (all z : Bytes) (r : Decoder × Str) : Type 0 where
  enc : r.0.encoding ≡ d.encoding
  short : length r.0.buf ≤ 1
  rejoined : r.1 ++ text_of (r.0.buf ++ z) ≡ text_of (all ++ z)

drop-length : (x : Bytes) → drop (length x) x ≡ []
drop-length [] = refl
drop-length (_ ∷ x) = drop-length x

abbrev even : Bytes → ℕ
even x = length x - length x % 2

-- Written for the even part and what follows it.
kept_lem :
    (buf x : Bytes)
    → buf ≡ []
    → (if length x % 2 == 0 then buf else masked (drop (length x - 1) x)) ≡ masked (drop (even x) x)
kept_lem buf x e = elim (Bool-cases (length x % 2 == 0)) [
  | inl t ↦
      let n : even x ≡ length x = omega (arith, ==→eq _ _ t) in
      rw t (e ∙ sym (ap (λ k. masked (drop k x)) n ∙ ap masked (drop-length x)))
  | inr t ↦ let n : even x ≡ length x - 1 = ground arith in rw (t, n)
]

out_lem :
    (n : ℕ) (x : Bytes)
    → (if ltb 0 n then decode_utf16le (take n x) else []) ≡ decode_utf16le (take n x)
unfolding decode_utf16le
out_lem zero x = refl
out_lem (suc n) x = let e : ltb 0 (suc n) ≡ true = lt→ltb _ _ (omega arith) in rw e

rejoin :
    (x z : Bytes)
    → decode_utf16le (take (even x) x) ++ text_of (masked (drop (even x) x) ++ z)
      ≡ text_of (masked x ++ z)
rejoin x z =
    ap (λ (s : Str). s ++ text_of (masked (drop (even x) x) ++ z))
      (sym (decode_utf16le-masked (take (even x) x)))
    ∙ sym (
        text_of-append (length x / 2) (masked (take (even x) x)) (masked (drop (even x) x) ++ z)
          (length-masked (take (even x) x) ∙ length-take (even x) x (omega arith) ∙ omega arith))
    ∙ ap text_of (sym (append_assoc (masked (take (even x) x)) (masked (drop (even x) x)) z))
    ∙ ap (λ (b : Bytes). text_of (b ++ z))
        (sym (map-append (λ b. b % 256) (take (even x) x) (drop (even x) x))
          ∙ ap masked (take-append-drop (even x) x))

write_pairs-eq :
    (d : Decoder) (x : Bytes)
    → d.buf ≡ []
    → write_pairs d x
      ≡ (record d { buf = masked (drop (even x) x) }, decode_utf16le (take (even x) x))
unfolding write_pairs
write_pairs-eq d x e =
    ap₂ (λ (b : Bytes) (s : Str). let r : Decoder × Str = (record d { buf = b }, s) in r)
      (kept_lem d.buf x e) (out_lem (even x) x)

write_pairs-Kept : (d : Decoder) (x z : Bytes) → d.buf ≡ [] → Kept d (masked x) z (write_pairs d x)
write_pairs-Kept d x z e = subst (Kept d (masked x) z) (sym (write_pairs-eq d x e)) (record {
  enc = refl;
  short = omega (arith, length-masked (drop (even x) x), length-drop (even x) x);
  rejoined = rejoin x z;
})

abbrev holding : Encoding → ℕ → ℕ → Bytes → Decoder
holding enc needed char_len buf = record {
  encoding = enc;
  buf = buf;
  needed = needed;
  char_len = char_len;
}

-- By the number of bytes held.
holding-Kept :
    (enc : Encoding) (needed char_len : ℕ) (buf : Bytes) (c : ℕ) (x z : Bytes)
    → length buf ≤ 1
    → Kept
        (holding enc needed char_len buf)
        (buf ++ masked (c ∷ x))
        z
        (write_utf16le (holding enc needed char_len buf) (c ∷ x))
unfolding write_utf16le decode_utf16le text_of
holding-Kept enc n l [] c x z h = write_pairs-Kept (holding enc n l []) (c ∷ x) z refl
holding-Kept enc n l (b ∷ []) c x z h =
    let w = write_pairs-Kept (holding enc n l []) x z refl in
    record {
      enc = w.enc;
      short = w.short;
      rejoined = ap (λ (s : Str). (b % 256 + c % 256 % 256 * 256) ∷ s) w.rejoined;
    }
holding-Kept enc n l (_ ∷ _ ∷ _) c x z h = absurd (omega arith)

write-Kept :
    (d : Decoder) (x z : Bytes)
    → d.encoding ≡ utf16le
    → length d.buf ≤ 1
    → Kept d (d.buf ++ masked x) z (write d (buffer x))
write-Kept d [] z e h = rw write-nil (record {
  enc = refl;
  short = h;
  rejoined = ap (λ (b : Bytes). text_of (b ++ z)) (sym (append-nil d.buf));
})
write-Kept d (c ∷ x) z e h =
    subst (Kept d (d.buf ++ masked (c ∷ x)) z)
      (sym (write-buffer d c x ∙ ap (λ k. write_buffer k d (c ∷ x)) e))
      (holding-Kept d.encoding d.needed d.char_len d.buf c x z h)

write_all-Kept :
    (chunks : List Bytes) (d : Decoder)
    → d.encoding ≡ utf16le
    → length d.buf ≤ 1
    → Kept d (d.buf ++ masked (flatten chunks)) [] (write_all d chunks)
unfolding write_all flatten
write_all-Kept [] d e h = record {
  enc = refl;
  short = h;
  rejoined = ap (λ (b : Bytes). text_of (b ++ [])) (sym (append-nil d.buf));
}
write_all-Kept (x ∷ chunks) d e h =
    let w = write-Kept d x (masked (flatten chunks) ++ []) e h in
    let v = write_all-Kept chunks (write d (buffer x)).0 (w.enc ∙ e) w.short in
    record {
      enc = v.enc ∙ w.enc;
      short = v.short;
      rejoined =
          append_assoc (write d (buffer x)).1 _ _
          ∙ ap (λ (s : Str). (write d (buffer x)).1 ++ s)
              (v.rejoined
                ∙ ap text_of (append_assoc (write d (buffer x)).0.buf (masked (flatten chunks)) []))
          ∙ w.rejoined
          ∙ ap text_of (
              append_assoc d.buf (masked x) (masked (flatten chunks) ++ [])
              ∙ ap (λ (m : Bytes). d.buf ++ m)
                  (sym (append_assoc (masked x) (masked (flatten chunks)) [])
                    ∙ ap (λ (m : Bytes). m ++ [])
                        (sym (map-append (λ b. b % 256) x (flatten chunks))))
              ∙ sym (append_assoc d.buf (masked (x ++ flatten chunks)) []));
    }

end-holding :
    (needed char_len : ℕ) (buf : Bytes)
    → length buf ≤ 1
    → (end (holding utf16le needed char_len buf) missing).1 ≡ text_of buf
unfolding end write flush text_of
end-holding n l [] h = refl
end-holding n l (b ∷ []) h = refl
end-holding n l (_ ∷ _ ∷ _) h = absurd (omega arith)

-- At most one byte is held at the end, and `end` gives it as it is.
end-short :
    (d : Decoder) → d.encoding ≡ utf16le → length d.buf ≤ 1 → (end d missing).1 ≡ text_of d.buf
end-short d e h =
    ap (λ k. (end (holding k d.needed d.char_len d.buf) missing).1) e
    ∙ end-holding d.needed d.char_len d.buf h

-- A decoder whose encoding is UTF-16LE is given bytes in chunks, cut anywhere. What the writes and the
-- end return, taken together, is the units of all the byte pairs, and an odd last byte as it is.
pub decode_chunks-utf16le :
    (enc : Option Str) (chunks : List Bytes)
    → normalize_encoding enc ≡ utf16le
    → decode_chunks (new enc) chunks ≡ text_of (masked (flatten chunks))
unfolding decode_chunks new
decode_chunks-utf16le enc chunks e =
    let w = write_all-Kept chunks (new enc) e (omega arith) in
    ap (λ (s : Str). (write_all (new enc) chunks).1 ++ s)
      (end-short (write_all (new enc) chunks).0 (w.enc ∙ e) w.short)
    ∙ ap (λ (b : Bytes). (write_all (new enc) chunks).1 ++ text_of b)
        (sym (append-nil (write_all (new enc) chunks).0.buf))
    ∙ w.rejoined
    ∙ ap text_of (append-nil (masked (flatten chunks)))
