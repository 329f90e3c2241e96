-- ===== src/StringDecoder/Stream.antt =====
-- Well-formed UTF-8 that arrives in chunks, cut anywhere, is decoded as if it had come in one piece.
use jaseci.Prelude.{
  ℕ, ◌+◌, ◌-◌, ◌%◌, ◌<◌, List, [], ◌∷◌, ◌++◌, append_assoc, append-nil, ◌≡◌, ◌≢◌, ◌⊎◌, inl, inr,
  refl, ap, ap₂, sym, ◌∙◌, subst, arith, length, length-append, All, Str,
}
use jaseci.Unicode
use jaseci.Unicode.{Bytes, bytes, units, utf16}
use jaseci.Unicode.Cases.{IsPoint}
use jaseci.Slices.{utf8, utf8_char_length, decode_utf8}
use jaseci.Slices.Utf8.{decode_utf8-utf8}
use jaseci.StringDecoder.{utf8_incomplete_end, Decoder, masked, write_rest, write_utf8}
use jaseci.StringDecoder.Boundary.{IsByte, IsChar, bytes-IsChar, compare_cuts, Inside, cut}
use jaseci.StringDecoder.Trailing.{utf8_incomplete_end-utf8, utf8_incomplete_end-begun}
use jaseci.StringDecoder.Fill.{
  All-append_inv, masked-IsByte, write_rest-whole, write_rest-begun, write_utf8-empty,
  write_utf8-part, write_utf8-whole,
}

-- The decoder holds the beginning of a character, and knows how long the character is.
pub record Holds (d : Decoder) (y : Bytes) (left : List ℕ) : Type 0 where
  pub inside : Inside d.buf y left
  pub counted : d.char_len ≡ length (bytes inside.first)

-- What is buffered and what is still to come, `y`, are the characters `left`.
pub record Ready (d : Decoder) (y : Bytes) (left : List ℕ) : Type 0 where
  pub enc : d.encoding ≡ utf8
  pub points : All IsPoint left
  pub whole : d.buf ++ y ≡ Unicode.utf8 left
  pub state : (d.buf ≡ []) ⊎ Holds d y left

-- A write put out the characters `done`, and is ready for the others.
pub record Wrote (r : Decoder × Str) (y : Bytes) (cs : List ℕ) : Type 0 where
  pub done : List ℕ
  pub left : List ℕ
  pub all : cs ≡ done ++ left
  pub out : r.1 ≡ utf16 done
  pub ready : Ready r.0 y left

module _ (d : Decoder) (enc : d.encoding ≡ utf8) (empty : d.buf ≡ []) where
  -- A chunk whose end is inside a character.
  write_rest-Inside :
      (x y : Bytes) (begun : Bytes) (done left : List ℕ)
      → All IsPoint done
      → All IsPoint left
      → x ≡ Unicode.utf8 done ++ begun
      → begun ++ y ≡ Unicode.utf8 left
      → Inside begun y left
      → Wrote (write_rest d x) y (done ++ left)
  write_rest-Inside x y [] done left pd pl e r i = absurd (i.begun_ne refl)
  write_rest-Inside x y (b ∷ begun) done left pd pl e r i =
      subst (λ w. Wrote w y (done ++ left)) (sym written)
        (record {
          done = done;
          left = left;
          all = refl;
          out = decode_utf8-utf8 done pd;
          ready = record {
            enc = enc;
            points = pl;
            whole = r;
            state = inr (record { inside = i; counted = length_known });
          };
        })
    where
      char : IsChar (bytes i.first)
      char = bytes-IsChar i.first i.point

      in_range : All IsByte (b ∷ begun)
      in_range =
          (All-append_inv (b ∷ begun) i.missing (subst (All IsByte) i.splits char.in_range)).0

      lead : char.lead ≡ b
      lead = let e : char.lead ∷ char.tail ≡ b ∷ (begun ++ i.missing) = sym char.is ∙ i.splits in cc

      length_known : utf8_char_length b ≡ length (bytes i.first)
      length_known =
          let m : char.lead % 256 ≡ b = omega (arith, in_range.0, lead) in
          subst (λ n. utf8_char_length n ≡ length (bytes i.first)) m char.counted

      written : write_rest d x ≡ (
        record d {
          buf = b ∷ begun;
          char_len = utf8_char_length b;
          needed = utf8_char_length b - length (b ∷ begun);
        },
        decode_utf8 (Unicode.utf8 done),
      )
      written =
          ap (write_rest d) e
          ∙ write_rest-begun d (Unicode.utf8 done) b begun
              (utf8_incomplete_end-begun (Unicode.utf8 done) (b ∷ begun) i.missing i.first i.point
                i.splits i.begun_ne i.missing_ne)
              in_range

  write_rest-Wrote :
      (x y : Bytes) (cs : List ℕ)
      → All IsPoint cs
      → x ++ y ≡ Unicode.utf8 cs
      → Wrote (write_rest d x) y cs
  write_rest-Wrote x y cs h e =
      let k = cut cs x y h e in
      subst (λ all. Wrote (write_rest d x) y all) (sym k.all)
        (elim k.inside [
          | inr i ↦
              write_rest-Inside x y k.begun k.done k.left k.points_done k.points_left k.chunk k.rest
                i
          | inl z ↦
              let whole : x ≡ Unicode.utf8 k.done =
                k.chunk ∙ ap (λ (s : Bytes). Unicode.utf8 k.done ++ s) z ∙ append-nil _ in
              let left : y ≡ Unicode.utf8 k.left = ap (λ (s : Bytes). s ++ y) (sym z) ∙ k.rest in
              subst (λ w. Wrote w y (k.done ++ k.left))
                (sym (
                  write_rest-whole d x
                    (ap utf8_incomplete_end whole ∙ utf8_incomplete_end-utf8 k.done k.points_done)))
                (record {
                  done = k.done;
                  left = k.left;
                  all = refl;
                  out = ap decode_utf8 whole ∙ decode_utf8-utf8 k.done k.points_done;
                  ready = record {
                    enc = enc;
                    points = k.points_left;
                    whole = ap (λ (s : Bytes). s ++ y) empty ∙ left;
                    state = inl empty;
                  };
                })
        ])

length-pos : (b : Bytes) → b ≢ [] → 0 < length b
length-pos [] h = absurd (h refl)
length-pos (_ ∷ b) h = omega arith

append-ne-nil : (a b : Bytes) → a ≢ [] → a ++ b ≢ []
append-ne-nil [] b h = absurd (h refl)
append-ne-nil (_ ∷ a) b h = λ e. cc

-- With a character begun, of which `inside.missing` is still to come.
module _ (d : Decoder) (enc : d.encoding ≡ utf8) (x y : Bytes) (cs : List ℕ)
    (points : All IsPoint cs) (holds : Holds d (x ++ y) cs) where
  open holds use {inside}

  sizes : length d.buf + length inside.missing ≡ d.char_len
  sizes = sym (holds.counted ∙ ap length inside.splits ∙ length-append d.buf inside.missing)

  some_held : 0 < length d.buf
  some_held = length-pos d.buf inside.begun_ne

  in_range : All IsByte inside.missing
  in_range =
      let char = bytes-IsChar inside.first inside.point in
      (All-append_inv d.buf inside.missing (subst (All IsByte) inside.splits char.in_range)).1

  others_points : All IsPoint inside.others
  others_points = (subst (All IsPoint) inside.left_is points).1

  -- The character as the decoder puts it together.
  first_out : decode_utf8 (d.buf ++ inside.missing) ≡ units inside.first
  first_out =
      ap decode_utf8 (sym inside.splits ∙ sym (append-nil (bytes inside.first)))
      ∙ decode_utf8-utf8 (inside.first ∷ []) (inside.point, tt)
      ∙ append-nil (units inside.first)

  completes :
      (x' : Bytes)
      → x ≡ inside.missing ++ x'
      → x' ++ y ≡ Unicode.utf8 inside.others
      → Wrote (write_utf8 d x) y cs
  completes x' p q =
      let w =
        write_rest-Wrote (record d { buf = []; needed = 0; char_len = 0 }) enc refl x' y
          inside.others others_points q in
      subst (λ r. Wrote r y cs)
        (sym (ap (write_utf8 d) p ∙ write_utf8-whole d inside.missing x' some_held sizes in_range))
        (record {
          done = inside.first ∷ w.done;
          left = w.left;
          all = inside.left_is ∙ ap (inside.first ∷◌) w.all;
          out = ap₂ (λ (a b : Str). a ++ b) first_out w.out;
          ready = w.ready;
        })

  continues :
      (q : Bytes)
      → inside.missing ≡ x ++ q
      → q ≢ []
      → y ≡ q ++ Unicode.utf8 inside.others
      → d.buf ++ (x ++ y) ≡ Unicode.utf8 cs
      → Wrote (write_utf8 d x) y cs
  continues q p n f whole =
      subst (λ r. Wrote r y cs) (sym (write_utf8-part d x some_held short))
        (record {
          done = [];
          left = cs;
          all = refl;
          out = refl;
          ready = record {
            enc = enc;
            points = points;
            whole = ap (λ (b : Bytes). b ++ y) buffered ∙ append_assoc d.buf x y ∙ whole;
            state = inr (record {
              inside = record {
                first = inside.first;
                others = inside.others;
                missing = q;
                left_is = inside.left_is;
                point = inside.point;
                splits =
                    inside.splits
                    ∙ ap (λ (b : Bytes). d.buf ++ b) p
                    ∙ sym (append_assoc d.buf x q)
                    ∙ ap (λ (b : Bytes). b ++ q) (sym buffered);
                begun_ne = append-ne-nil d.buf (masked x) inside.begun_ne;
                missing_ne = n;
                follows = f;
              };
              counted = holds.counted;
            });
          };
        })
    where
      buffered : d.buf ++ masked x ≡ d.buf ++ x
      buffered =
          ap (λ (b : Bytes). d.buf ++ b)
            (masked-IsByte x (All-append_inv x q (subst (All IsByte) p in_range)).0)

      short : length d.buf + length x < d.char_len
      short = omega (arith, sizes, ap length p, length-append x q, length-pos q n)

-- Every write keeps the decoder ready, and puts out exactly the characters that are complete.
pub write_utf8-Wrote :
    (d : Decoder) (x y : Bytes) (cs : List ℕ) → Ready d (x ++ y) cs → Wrote (write_utf8 d x) y cs
write_utf8-Wrote d x y cs r = elim r.state [
  | inl z ↦
      subst (λ w. Wrote w y cs) (sym (write_utf8-empty d x (ap length z)))
        (write_rest-Wrote d r.enc z x y cs r.points
          (ap (λ (s : Bytes). s ++ (x ++ y)) (sym z) ∙ r.whole))
  | inr h ↦
      elim (compare_cuts x y h.inside.missing (Unicode.utf8 h.inside.others) h.inside.follows) [
        | inl (x', p, q) ↦ completes d r.enc x y cs r.points h x' p q
        | inr (q, p, n, f) ↦ continues d r.enc x y cs r.points h q p n f r.whole
      ]
]
