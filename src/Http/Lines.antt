-- ===== src/Http/Lines.antt =====
-- Lines and places in a text that is put together of parts, for http_core.js.
use jaseci.Prelude.{
  shift, ℕ, ◌+◌, ◌-◌, [], ◌∷◌, ◌++◌, some, Str, Free, length, take, ◌≡◌, refl, ap, ◌∙◌, arith,
  take-append, drop-append, ne→==,
}
use jaseci.Http.{cr, crlf, slice, crlf_index, find_crlf}

pub crlf_index-append : (s t : Str) → Free cr s → crlf_index (s ++ (crlf ++ t)) ≡ some (length s)
unfolding crlf_index
crlf_index-append [] t h = refl
crlf_index-append (c ∷ []) t h = rw (ne→== c cr h.0, crlf_index) refl
crlf_index-append (c ∷ d ∷ s) t h =
    rw (ne→== c cr h.0, crlf_index, crlf_index-append (d ∷ s) t h.1) (ap some (omega arith))

pub find_crlf-append :
    (pre s t : Str)
    → Free cr s
    → find_crlf (pre ++ (s ++ (crlf ++ t))) (length pre) ≡ some (length pre + length s)
unfolding find_crlf
find_crlf-append pre s t h =
    ap (λ (x : Str). shift (length pre) (crlf_index x)) (drop-append pre (s ++ (crlf ++ t)))
    ∙ ap (shift (length pre)) (crlf_index-append s t h)

pub slice-middle :
    (pre s t : Str) → slice (length pre) (length pre + length s) (pre ++ (s ++ t)) ≡ s
slice-middle pre s t =
    ap (take (length pre + length s - length pre)) (drop-append pre (s ++ t))
    ∙ ap (λ (n : ℕ). take n (s ++ t)) (omega arith)
    ∙ take-append s t
