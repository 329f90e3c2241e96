-- ===== src/StringDecoder/Groups.antt =====
-- Base64 output does not depend on how the bytes are cut into chunks.
use jaseci.Prelude.{
  ℕ, zero, suc, ne→==, ltb→le, subst, ◌+◌, ◌-◌, ◌/◌, ◌%◌, false, List, [], ◌∷◌, ◌++◌, append_assoc,
  append-nil, Option, ◌≡◌, inl, inr, refl, ap, sym, ◌∙◌, arith, length, length-append, length-take,
  take, drop, take-append-drop, if◌then◌else◌, Str, ltb, ◌==◌, Bool-cases,
}
use mathlib.Core.List.{flatten, map-append}
use jaseci.Unicode.{Bytes}
use jaseci.Slices.{base64, normalize_encoding, encode_base64, decode_slice}
use jaseci.Slices.Base64.{encode_base64-append}
use jaseci.StringDecoder.{
  Decoder, missing, buffer, new, masked, write_buffer, write_base64, write, flush, end,
}
use jaseci.StringDecoder.Session.{write_all, decode_chunks, write-buffer, write-nil}

length-masked : (x : Bytes) → length (masked x) ≡ length x
length-masked [] = refl
length-masked (_ ∷ x) = ap suc (length-masked x)

-- What is put out and what is kept, together with anything that follows.
none_or :
    (n : ℕ) (m : Bytes)
    → (if n == 0 then [] else encode_base64 (take n m)) ≡ encode_base64 (take n m)
unfolding encode_base64
none_or zero m = refl
none_or (suc n) m = let e : (suc n == 0) ≡ false = ne→== _ _ (omega arith) in rw e

rejoin :
    (n : ℕ) (m z : Bytes)
    → n ≡ length m - length m % 3
    → (if n == 0 then [] else encode_base64 (take n m)) ++ encode_base64 (drop n m ++ z)
      ≡ encode_base64 (m ++ z)
rejoin n m z h =
    ap (λ (s : Str). s ++ encode_base64 (drop n m ++ z)) (none_or n m)
    ∙ sym (
        encode_base64-append (length m / 3) (take n m) (drop n m ++ z)
          (length-take n m (omega arith) ∙ omega arith))
    ∙ ap encode_base64 (sym (append_assoc (take n m) (drop n m) z))
    ∙ ap (λ (s : Bytes). encode_base64 (s ++ z)) (take-append-drop n m)

-- What the loop does with the decoded length that it computes.
decoded : Decoder → Bytes → ℕ
decoded d x =
    let available = length d.buf + length x in
    let usable = available - available % 3 in
    if ltb (length (d.buf ++ masked x)) usable then length (d.buf ++ masked x) else usable

decoded_lem :
    (d : Decoder) (x : Bytes) → let m = d.buf ++ masked x in decoded d x ≡ length m - length m % 3
unfolding decoded
decoded_lem d x = ground (arith, length-append d.buf (masked x), length-masked x)

pub write_base64-step :
    (d : Decoder) (x z : Bytes)
    → let r = write_base64 d x in
      r.1 ++ encode_base64 (r.0.buf ++ z) ≡ encode_base64 (d.buf ++ (masked x ++ z))
unfolding write_base64 decode_slice decoded
write_base64-step d x z =
    rejoin (decoded d x) (d.buf ++ masked x) z (decoded_lem d x)
    ∙ ap encode_base64 (append_assoc d.buf (masked x) z)

write_base64-encoding : (d : Decoder) (x : Bytes) → (write_base64 d x).0.encoding ≡ d.encoding
unfolding write_base64
write_base64-encoding d x = refl

-- The same for a write of the class.
write-step :
    (d : Decoder) (x z : Bytes)
    → d.encoding ≡ base64
    → let r = write d (buffer x) in
      (r.0.encoding ≡ base64)
      × (r.1 ++ encode_base64 (r.0.buf ++ z) ≡ encode_base64 (d.buf ++ (masked x ++ z)))
write-step d [] z e = rw write-nil (e, refl)
write-step d (b ∷ x) z e =
    subst
      (λ (r : Decoder × Str).
        (r.0.encoding ≡ base64)
        × (r.1 ++ encode_base64 (r.0.buf ++ z) ≡ encode_base64 (d.buf ++ (masked (b ∷ x) ++ z))))
      (sym (write-buffer d b x ∙ ap (λ k. write_buffer k d (b ∷ x)) e))
      (write_base64-encoding d (b ∷ x) ∙ e, write_base64-step d (b ∷ x) z)

write_all-base64 :
    (chunks : List Bytes) (d : Decoder)
    → d.encoding ≡ base64
    → let r = write_all d chunks in
      (r.0.encoding ≡ base64)
      × (r.1 ++ encode_base64 r.0.buf ≡ encode_base64 (d.buf ++ masked (flatten chunks)))
unfolding write_all flatten
write_all-base64 [] d e = (e, ap encode_base64 (sym (append-nil d.buf)))
write_all-base64 (x ∷ chunks) d e =
    let w = write-step d x (masked (flatten chunks)) e in
    let v = write_all-base64 chunks (write d (buffer x)).0 w.0 in
    (
      v.0,
      append_assoc (write d (buffer x)).1 _ _
          ∙ ap (λ (s : Str). (write d (buffer x)).1 ++ s) v.1
          ∙ w.1
          ∙ ap (λ (m : Bytes). encode_base64 (d.buf ++ m))
              (sym (map-append (λ b. b % 256) x (flatten chunks))),
    )

end-base64 : (d : Decoder) → d.encoding ≡ base64 → (end d missing).1 ≡ encode_base64 d.buf
unfolding end write flush encode_base64
end-base64 d e = elim (Bool-cases (ltb 0 (length d.buf))) [
  | inl t ↦ rw t (ap (λ k. flush k d.buf) e)
  | inr t ↦ rw t (sym (ap encode_base64 (nil d.buf t)))
]
  where
    nil : (b : Bytes) → ltb 0 (length b) ≡ false → b ≡ []
    nil [] h = refl
    nil (_ ∷ b) h = absurd (omega (arith, ltb→le _ _ h))

-- A decoder whose encoding is base64 is given bytes in chunks, cut anywhere. What the writes and the
-- end return, taken together, is the base64 text of all the bytes.
pub decode_chunks-base64 :
    (enc : Option Str) (chunks : List Bytes)
    → normalize_encoding enc ≡ base64
    → decode_chunks (new enc) chunks ≡ encode_base64 (masked (flatten chunks))
unfolding decode_chunks new
decode_chunks-base64 enc chunks e =
    let w = write_all-base64 chunks (new enc) e in
    ap (λ (s : Str). (write_all (new enc) chunks).1 ++ s)
      (end-base64 (write_all (new enc) chunks).0 w.0)
    ∙ w.1
