-- ===== src/Http/Routes/Redirect.antt =====
-- Where `resolveRedirectLocation` of http_core.js leads.
use jaseci.Prelude.{
  ℕ, zero, suc, [], ◌∷◌, ◌++◌, some, ◌==◌, if◌then◌else◌, Str, codes, take, last_index_of,
  Bool-cases, inl, inr, ==→eq, ne→==, ◌≡◌, refl, arith, Str, Option, none, ◌⊎◌, false, if_both,
}
use jaseci.Http.Routes.{or, prefix_of, Location, Url, has_scheme, resolve_path, redirect}

-- A path that starts with a slash.
abbrev pub IsAbsolute : Str → Type 0
IsAbsolute [] = ⊥
IsAbsolute (c ∷ s) = c ≡ b'/'

-- The base is used where a path is empty or starts with a slash.
abbrev pub IsBase : Str → Type 0
IsBase [] = Unit
IsBase (c ∷ s) = c ≡ b'/'

take-IsAbsolute :
    (c : ℕ) (dir location : Str) (end : ℕ)
    → c ≡ b'/'
    → IsAbsolute ((if end == 0 then codes "/" else take end (c ∷ dir)) ++ location)
take-IsAbsolute c dir location zero h = refl
take-IsAbsolute c dir location (suc n) h = rw (ne→== (suc n) 0 (λ e. absurd (omega arith))) h

prefix_of-IsAbsolute : (path location : Str) → IsBase path → IsAbsolute (prefix_of path ++ location)
unfolding prefix_of or
prefix_of-IsAbsolute [] location h =
    take-IsAbsolute b'/' [] location (last_index_of (codes "/") b'/') refl
prefix_of-IsAbsolute (c ∷ path) location h =
    take-IsAbsolute c path location (last_index_of (c ∷ path) b'/') h

resolve_path-IsAbsolute :
    (c : ℕ) (location : Str) (base : Location)
    → IsBase base.path
    → IsAbsolute (resolve_path c location base).path
      × ((resolve_path c location base).host ≡ base.host)
      × ((resolve_path c location base).port ≡ base.port)
      × ((resolve_path c location base).protocol ≡ base.protocol)
unfolding resolve_path
resolve_path-IsAbsolute c location base h = elim (Bool-cases (c == b'/')) [
  | inl e ↦ rw e (==→eq c b'/' e, refl, refl, refl)
  | inr e ↦ rw e (prefix_of-IsAbsolute base.path (c ∷ location) h, refl, refl, refl)
]

-- The location has no "://", or there is no URL that it makes.
abbrev pub IsRelative : (Str → Option Url) → Str → Type 0
IsRelative url location = (has_scheme location ≡ false) ⊎ (url location ≡ none)

redirect-IsRelative :
    (url : Str → Option Url) (c : ℕ) (location : Str) (base : Location)
    → IsRelative url (c ∷ location)
    → redirect url (c ∷ location) base ≡ some (resolve_path c location base)
unfolding redirect
redirect-IsRelative url c location base (inl e) = rw (redirect, e) refl
redirect-IsRelative url c location base (inr e) =
    rw (redirect, e)
      (if_both (λ (l : Option Location). l ≡ some (resolve_path c location base))
        (has_scheme (c ∷ location)) (some (resolve_path c location base))
        (some (resolve_path c location base)) refl refl)

-- A location that is not empty, and has no "://" or makes no URL, leads to a path that starts with a
-- slash, on the host, port and protocol of the request, where the path of the request is empty or starts
-- with a slash.
pub redirect-IsAbsolute :
    (url : Str → Option Url) (c : ℕ) (location : Str) (base : Location)
    → IsRelative url (c ∷ location)
    → IsBase base.path
    → (l : Location) × (redirect url (c ∷ location) base ≡ some l)
      × IsAbsolute l.path
      × (l.host ≡ base.host)
      × (l.port ≡ base.port)
      × (l.protocol ≡ base.protocol)
redirect-IsAbsolute url c location base r h =
    let (absolute, host, port, protocol) = resolve_path-IsAbsolute c location base h in
    (
      resolve_path c location base,
      redirect-IsRelative url c location base r,
      absolute,
      host,
      port,
      protocol,
    )
