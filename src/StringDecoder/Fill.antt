-- ===== src/StringDecoder/Fill.antt =====
-- What the parts of `_doWriteUtf8` do, each with its tests decided.
use jaseci.Prelude.{
  ℕ, suc, ◌+◌, ◌-◌, ◌%◌, ◌<◌, true, false, [], ◌∷◌, ◌++◌, append_assoc, append-nil, ltb, leb,
  lt→ltb, ◌≡◌, refl, ap, ap₂, ◌∙◌, subst, arith, length, length-append, All, if_true, take,
  take-length, take-append, drop-append, length-cons-pos,
}
use jaseci.Unicode.{Bytes}
use jaseci.Slices.{utf8_char_length, decode_utf8}
use jaseci.StringDecoder.{Decoder, masked, fill, utf8_incomplete_end, write_rest, write_utf8}
use jaseci.StringDecoder.Boundary.{IsByte}

pub All-append_inv : (a b : Bytes) → All IsByte (a ++ b) → All IsByte a × All IsByte b
All-append_inv [] b h = (tt, h)
All-append_inv (x ∷ a) b h = let (p, q) = All-append_inv a b h.1 in ((h.0, p), q)

-- Masking changes no byte.
pub masked-IsByte : (b : Bytes) → All IsByte b → masked b ≡ b
masked-IsByte [] h = refl
masked-IsByte (x ∷ b) h = ap₂ ◌∷◌ (omega arith) (masked-IsByte b h.1)

-- A chunk that is too short for the character is buffered whole.
pub fill_part : (n : ℕ) (p x : Bytes) → length p + length x < n → fill n p x ≡ (p ++ masked x, [])
unfolding fill
fill_part n p [] h = rw append-nil
fill_part n p (b ∷ x) h =
    if_true _ _ (lt→ltb (length p) n (omega arith))
    ∙ fill_part n (p ++ (b % 256 ∷ [])) x (omega (arith, length-append p (b % 256 ∷ [])))
    ∙ rw append_assoc

-- Otherwise the character is completed, and the rest of the chunk is left.
pub fill_whole :
    (n : ℕ) (p q x : Bytes) → length p + length q ≡ n → fill n p (q ++ x) ≡ (p ++ masked q, x)
unfolding fill
fill_whole n p [] [] h = rw append-nil
fill_whole n p [] (b ∷ x) h = let e : ltb (length p) n ≡ false = ground arith in rw (e, append-nil)
fill_whole n p (b ∷ q) x h =
    if_true _ _ (lt→ltb (length p) n (omega arith))
    ∙ fill_whole n (p ++ (b % 256 ∷ [])) q x (omega (arith, length-append p (b % 256 ∷ [])))
    ∙ rw append_assoc

length-masked : (x : Bytes) → length (masked x) ≡ length x
length-masked [] = refl
length-masked (_ ∷ x) = ap suc (length-masked x)

module _ (d : Decoder) where
  pub write_rest-whole :
      (x : Bytes) → utf8_incomplete_end x ≡ 0 → write_rest d x ≡ (d, decode_utf8 x)
  unfolding write_rest
  write_rest-whole x e = rw e

  -- A chunk that breaks off inside a character.
  pub write_rest-begun :
      (x : Bytes) (b : ℕ) (begun : Bytes)
      → utf8_incomplete_end (x ++ b ∷ begun) ≡ length (b ∷ begun)
      → All IsByte (b ∷ begun)
      → write_rest d (x ++ b ∷ begun) ≡ (
        record d {
          buf = b ∷ begun;
          char_len = utf8_char_length b;
          needed = utf8_char_length b - length (b ∷ begun);
        },
        decode_utf8 x,
      )
  unfolding write_rest
  write_rest-begun x b begun e r =
      let n : length (x ++ b ∷ begun) - length (b ∷ begun) ≡ length x =
        omega (arith, length-append x (b ∷ begun)) in
      let m : b % 256 ≡ b = omega arith in
      rw (
        e,
        n,
        take-append x (b ∷ begun),
        drop-append x (b ∷ begun),
        m,
        masked-IsByte begun r.1,
        length-cons-pos b begun,
      )

  pub write_utf8-empty : (x : Bytes) → length d.buf ≡ 0 → write_utf8 d x ≡ write_rest d x
  unfolding write_utf8
  write_utf8-empty x e = let t : ltb 0 (length d.buf) ≡ false = ground arith in rw t

  -- With bytes buffered, and a chunk that leaves the character incomplete.
  pub write_utf8-part :
      (x : Bytes)
      → 0 < length d.buf
      → length d.buf + length x < d.char_len
      → write_utf8 d x ≡ (
        record d { buf = d.buf ++ masked x; needed = d.char_len - length (d.buf ++ masked x) },
        [],
      )
  unfolding write_utf8
  write_utf8-part x p h =
      let t : ltb 0 (length d.buf) ≡ true = lt→ltb _ _ p in
      let u : leb d.char_len (length (d.buf ++ masked x)) ≡ false =
        ground (arith, length-append d.buf (masked x), length-masked x) in
      rw (fill_part d.char_len d.buf x h, t, u)

  -- With bytes buffered, and a chunk that completes the character.
  pub write_utf8-whole :
      (q x : Bytes)
      → 0 < length d.buf
      → length d.buf + length q ≡ d.char_len
      → All IsByte q
      → let r = write_rest (record d { buf = []; needed = 0; char_len = 0 }) x in
        write_utf8 d (q ++ x) ≡ (r.0, decode_utf8 (d.buf ++ q) ++ r.1)
  unfolding write_utf8
  write_utf8-whole q x p h r =
      let t : ltb 0 (length d.buf) ≡ true = lt→ltb _ _ p in
      let l : length (d.buf ++ q) ≡ d.char_len = length-append d.buf q ∙ h in
      let u : leb d.char_len d.char_len ≡ true = ground arith in
      let k : take d.char_len (d.buf ++ q) ≡ d.buf ++ q =
        subst (λ n. take n (d.buf ++ q) ≡ d.buf ++ q) l (take-length (d.buf ++ q)) in
      rw (fill_whole d.char_len d.buf q x h, masked-IsByte q r, t, l, u, k)
