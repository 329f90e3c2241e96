-- ===== src/StringDecoder/Boundary.antt =====
-- Where a chunk of well-formed UTF-8 ends: between two characters, or inside one.
use jaseci.Prelude.{
  ℕ, ◌+◌, ◌/◌, ◌%◌, ◌<◌, ◌≤◌, true, false, List, [], ◌∷◌, ◌++◌, append_assoc, ◌==◌, ◌≡◌, ◌≢◌, ◌⊎◌,
  inl, inr, refl, ap, sym, ◌∙◌, arith, length, All,
}
use jaseci.Unicode.{Bytes, bytes, utf8}
use jaseci.Unicode.Cases.{bytes_cases, IsPoint, two, three, four}
use jaseci.Slices.{utf8_char_length}

abbrev pub IsCont : ℕ → Type 0
IsCont b = (b % 256 / 64 == 2) ≡ true

abbrev pub IsByte : ℕ → Type 0
IsByte b = b < 256

-- The bytes of one character: a lead byte that tells their number, then continuation bytes.
pub record IsChar (b : Bytes) : Type 0 where
  pub lead : ℕ
  pub tail : Bytes
  pub is : b ≡ lead ∷ tail
  pub is_lead : (lead % 256 / 64 == 2) ≡ false
  pub conts : All IsCont tail
  pub counted : utf8_char_length (lead % 256) ≡ length b
  pub short : length tail ≤ 3
  pub in_range : All IsByte b

module _ (c : ℕ) where
  cont : (x : ℕ) → (0x80 + x % 64) % 256 / 64 ≡ 2
  cont x = omega arith

  IsChar-one : c < 0x80 → IsChar (c ∷ [])
  unfolding utf8_char_length
  IsChar-one h = record {
    lead = c;
    tail = [];
    is = refl;
    is_lead = ground arith;
    conts = tt;
    counted = ground arith;
    short = omega arith;
    in_range = (omega arith, tt);
  }

  IsChar-two : 0x80 ≤ c → c < 0x800 → IsChar (two c)
  unfolding utf8_char_length
  IsChar-two h k = record {
    lead = 0xc0 + c / 64;
    tail = (0x80 + c % 64) ∷ [];
    is = refl;
    is_lead = ground arith;
    conts = (ground arith, tt);
    counted = ground arith;
    short = omega arith;
    in_range = omega arith;
  }

  IsChar-three : 0x800 ≤ c → c < 0x10000 → IsChar (three c)
  unfolding utf8_char_length
  IsChar-three h k = record {
    lead = 0xe0 + c / 4096;
    tail = (0x80 + c / 64 % 64) ∷ (0x80 + c % 64) ∷ [];
    is = refl;
    is_lead = ground arith;
    conts = (ground arith, (ground arith, tt));
    counted = ground arith;
    short = omega arith;
    in_range = omega arith;
  }

  IsChar-four : IsPoint c → 0x10000 ≤ c → IsChar (four c)
  unfolding utf8_char_length
  IsChar-four h k = record {
    lead = 0xf0 + c / 262144;
    tail = (0x80 + c / 4096 % 64) ∷ (0x80 + c / 64 % 64) ∷ (0x80 + c % 64) ∷ [];
    is = refl;
    is_lead = ground arith;
    conts = (ground arith, (ground arith, (ground arith, tt)));
    counted = ground arith;
    short = omega arith;
    in_range = omega arith;
  }

pub bytes-IsChar : (c : ℕ) → IsPoint c → IsChar (bytes c)
bytes-IsChar c h =
    bytes_cases (λ b u. IsChar b) c (IsChar-one c) (IsChar-two c) (IsChar-three c) (IsChar-four c h)

-- Two ways to cut the same bytes in two: the first cut is not before the second, or it is.
pub compare_cuts :
    (x y b z : Bytes)
    → x ++ y ≡ b ++ z
    → ((x' : Bytes) × (x ≡ b ++ x') × (x' ++ y ≡ z))
      ⊎ ((q : Bytes) × (b ≡ x ++ q) × (q ≢ []) × (y ≡ q ++ z))
compare_cuts x y [] z e = inl (x, refl, e)
compare_cuts [] y (c ∷ b) z e = inr (c ∷ b, refl, (λ e. cc), e)
compare_cuts (a ∷ x) y (c ∷ b) z e = elim (compare_cuts x y b z (cc)) [
  | inl (x', p, q) ↦ inl (x', cc, q)
  | inr (q, p, n, r) ↦ inr (q, cc, n, r)
]

-- `begun` is a proper beginning of the first character left, and `y` is what follows it.
pub record Inside (begun y : Bytes) (left : List ℕ) : Type 0 where
  pub first : ℕ
  pub others : List ℕ
  pub missing : Bytes
  pub left_is : left ≡ first ∷ others
  pub point : IsPoint first
  pub splits : bytes first ≡ begun ++ missing
  pub begun_ne : begun ≢ []
  pub missing_ne : missing ≢ []
  pub follows : y ≡ missing ++ utf8 others

-- A chunk `x` of well-formed bytes: whole characters, then nothing or the beginning of one.
pub record Cut (x y : Bytes) (cs : List ℕ) : Type 0 where
  pub done : List ℕ
  pub left : List ℕ
  pub begun : Bytes
  pub all : cs ≡ done ++ left
  pub points_done : All IsPoint done
  pub points_left : All IsPoint left
  pub chunk : x ≡ utf8 done ++ begun
  pub rest : begun ++ y ≡ utf8 left
  pub inside : (begun ≡ []) ⊎ Inside begun y left

pub cut : (cs : List ℕ) (x y : Bytes) → All IsPoint cs → x ++ y ≡ utf8 cs → Cut x y cs
cut cs [] y h e = record {
  done = [];
  left = cs;
  begun = [];
  all = refl;
  points_done = tt;
  points_left = h;
  chunk = refl;
  rest = e;
  inside = inl refl;
}
cut [] (a ∷ x) y h e = cc
cut (c ∷ cs) (a ∷ x) y h e = elim (compare_cuts (a ∷ x) y (bytes c) (utf8 cs) e) [
  | inl (x', p, q) ↦
      let r = cut cs x' y h.1 q in
      record {
        done = c ∷ r.done;
        left = r.left;
        begun = r.begun;
        all = ap (c ∷◌) r.all;
        points_done = (h.0, r.points_done);
        points_left = r.points_left;
        chunk =
            p
            ∙ ap (λ (s : Bytes). bytes c ++ s) r.chunk
            ∙ sym (append_assoc (bytes c) (utf8 r.done) r.begun);
        rest = r.rest;
        inside = r.inside;
      }
  | inr (q, p, n, r) ↦ record {
    done = [];
    left = c ∷ cs;
    begun = a ∷ x;
    all = refl;
    points_done = tt;
    points_left = h;
    chunk = refl;
    rest = e;
    inside = inr (record {
      first = c;
      others = cs;
      missing = q;
      left_is = refl;
      point = h.0;
      splits = p;
      begun_ne = (λ z. cc);
      missing_ne = n;
      follows = r;
    });
  }
]
