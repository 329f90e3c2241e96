-- ===== src/Urls/Files.antt =====
-- The paths that `fileURLToPath` of url.js reads.
use jaseci.Prelude.{
  List, ◌⊎◌, ◌↔◌, All, All-append, length-append, ltb→lt, lt→ltb, ◌≤◌, ℕ, ◌<◌, Bool, false, ◌||◌,
  [], ◌∷◌, ◌++◌, ltb, if◌then◌else◌, Str, codes, str_eq, length, index_of, to_lower_case, ◌≡◌, refl,
  ap, sym, ◌∙◌, arith, Bool-cases, inl, inr,
}
use jaseci.Querystring.{hex_table}
use jaseci.Querystring.Octets.{bytes-small}
use jaseci.Unicode.{bytes, units, utf8, utf16, Scalars}
use jaseci.Urls.{path, bad_scheme, decoded_path, path_of_rest, file_url_to_path}
use jaseci.Urls.Coded.{IsCoding, coded, decoded_path-coded}

file_url_to_path-rest : (x : Str) → file_url_to_path (codes "file://" ++ x) ≡ path_of_rest x
unfolding file_url_to_path str_eq to_lower_case
file_url_to_path-rest x =
    let long : ltb (length (codes "file://" ++ x)) 7 ≡ false = ground arith in
    ap (λ (b : Bool). if b || false then bad_scheme else path_of_rest x) long

path_of_rest-slash : (x : Str) → path_of_rest (b'/' ∷ x) ≡ decoded_path (b'/' ∷ x)
unfolding path_of_rest index_of
path_of_rest-slash x = refl

path_injective : (a b : Str) → path a ≡ path b → a ≡ b
path_injective a b e = cc

utf8-small : (points : List ℕ) → Scalars points → All (λ b. b < 256) (utf8 points)
utf8-small [] h = tt
utf8-small (c ∷ points) h =
    All-append (λ b. b < 256) (bytes c) (utf8 points) (bytes-small c h.0) (utf8-small points h.1)

-- The text of a path of code points, with a slash in front, as a file URL
abbrev pub file_url : (ℕ → Bool) → List ℕ → Str
file_url keep points = codes "file://" ++ coded keep (utf8 (b'/' ∷ points))

decoded_bytes :
    (keep : ℕ → Bool) (k : IsCoding keep) (points : List ℕ)
    → Scalars points
    → file_url_to_path (file_url keep points) ≡ path (utf8 (b'/' ∷ points))
decoded_bytes keep k points h =
    let s = utf8 points in
    let opened : coded keep (b'/' ∷ s) ≡ b'/' ∷ coded keep s =
      ap (λ (b : Bool). (if b then b'/' ∷ [] else hex_table b'/') ++ coded keep s) k.slash in
    file_url_to_path-rest (coded keep (b'/' ∷ s))
    ∙ ap path_of_rest opened
    ∙ path_of_rest-slash (coded keep s)
    ∙ ap decoded_path (sym opened)
    ∙ decoded_path-coded keep k (b'/' ∷ s) (omega arith, utf8-small points h)

abbrev pub IsAscii : List ℕ → Type 0
IsAscii = All (λ c. c < 128)

bytes-units : (c : ℕ) → (c < 128) ⊎ (length (units c) < length (bytes c))
bytes-units c = elim (Bool-cases (ltb c 0x80)) [
  | inl e ↦ inl (ltb→lt c 0x80 e)
  | inr e ↦ inr (ground (arith, e))
]

bytes_ascii : (c : ℕ) → c < 128 → (bytes c ≡ c ∷ []) × (units c ≡ c ∷ [])
bytes_ascii c h = (rw (lt→ltb c 0x80 h) refl, rw (lt→ltb c 0x10000 (omega arith)) refl)

utf8-IsAscii : (points : List ℕ) → IsAscii points → utf8 points ≡ utf16 points
utf8-IsAscii [] h = refl
utf8-IsAscii (c ∷ points) h =
    let (b, u) = bytes_ascii c h.0 in
    ap (λ (x : Str). x ++ utf8 points) b
    ∙ ap (c ∷◌) (utf8-IsAscii points h.1)
    ∙ ap (λ (x : Str). x ++ utf16 points) (sym u)

utf16-le : (points : List ℕ) → length (utf16 points) ≤ length (utf8 points)
utf16-le [] = omega arith
utf16-le (c ∷ points) =
    let more = utf16-le points in
    elim (bytes-units c) [
      | inl h ↦
          let (b, u) = bytes_ascii c h in
          omega (
            arith,
            ap length b,
            ap length u,
            length-append (units c) (utf16 points),
            length-append (bytes c) (utf8 points),
            more,
          )
      | inr h ↦ omega (
        arith,
        h,
        length-append (units c) (utf16 points),
        length-append (bytes c) (utf8 points),
        more,
      )
    ]

-- Where a text has as many bytes as units, all of it is ASCII.
length-IsAscii : (points : List ℕ) → length (utf8 points) ≡ length (utf16 points) → IsAscii points
length-IsAscii [] e = tt
length-IsAscii (c ∷ points) e =
    let more = utf16-le points in
    let split_bytes = length-append (bytes c) (utf8 points) in
    let split_units = length-append (units c) (utf16 points) in
    elim (bytes-units c) [
      | inl h ↦
          let (b, u) = bytes_ascii c h in
          (
            h,
            length-IsAscii points
                (omega (arith, ap length b, ap length u, split_bytes, split_units, e)),
          )
      | inr h ↦ absurd (omega (arith, h, split_bytes, split_units, more, e))
    ]

-- The file URL of an absolute path is the path in UTF-8, percent-encoded in any way that encodes percent signs
-- and no slashes or backslashes, and keeps bytes of ASCII only. `fileURLToPath` gives its UTF-8 bytes, each as a
-- code unit of its own; that is the path exactly if the path is ASCII.
pub file_url_to_path-utf8 :
    (keep : ℕ → Bool) (k : IsCoding keep) (points : List ℕ)
    → Scalars points
    → (file_url_to_path (file_url keep points) ≡ path (utf8 (b'/' ∷ points)))
      × ((file_url_to_path (file_url keep points) ≡ path (utf16 (b'/' ∷ points))) ↔ IsAscii points)
file_url_to_path-utf8 keep k points h =
    let result = decoded_bytes keep k points h in
    (
      result,
      (
        λ e.
            let same : utf8 (b'/' ∷ points) ≡ utf16 (b'/' ∷ points) =
              path_injective _ _ (sym result ∙ e) in
            let lengths : length (utf8 (b'/' ∷ points)) ≡ length (utf16 (b'/' ∷ points)) =
              ap length same in
            length-IsAscii points (omega (arith, lengths)),
        λ a. result ∙ ap path (ap (b'/' ∷◌) (utf8-IsAscii points a)),
      ),
    )
