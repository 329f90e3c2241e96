-- ===== src/Http/Chunked/RoundTrip.antt =====
-- The chunks that ServerResponse of http.js writes are decoded by http_core.js to the body.
use jaseci.Prelude.{
  ℕ, zero, suc, ◌+◌, ◌≤◌, ◌<◌, List, [], ◌∷◌, ◌++◌, map, some, Str, codes, length, le→ltb, if_false,
  ◌≡◌, ap, ap₂, subst, sym, ◌∙◌, arith, append_assoc, append-nil, length-append, Free,
}
use jaseci.Numerals.{number, digit, to_string, parse_int}
use jaseci.Numerals.Laws.{Digits, to_string-IsWritten, parse_int-to_string}
use jaseci.Http.{cr, crlf, slice, find_crlf}
use jaseci.Http.Lines.{find_crlf-append, slice-middle}
use jaseci.Http.Chunked.{
  decoded, decode_loop, decode_chunked_section, write_chunk, write_chunks, last_chunk,
}

map-Free : (ds : List ℕ) → Digits 16 ds → Free cr (map digit ds)
unfolding digit
map-Free [] h = tt
map-Free (d ∷ ds) h = (ground arith, map-Free ds h.1)

size-Free : (n : ℕ) → Free cr (to_string 16 n)
size-Free n =
    let w = to_string-IsWritten 16 n (omega arith) in
    subst (Free cr) (sym w.units) (map-Free (w.first ∷ w.others) w.digits)

-- A round of the loop at a chunk that is there as a whole.
decode_loop-chunk :
    (fuel : ℕ) (buf : Str) (pos : ℕ) (body : Str) (nl n : ℕ) (bytes : Str)
    → find_crlf buf pos ≡ some nl
    → parse_int 16 (slice pos nl buf) ≡ number (suc n)
    → nl + 2 + suc n + 2 ≤ length buf
    → slice (nl + 2) (nl + 2 + suc n) buf ≡ bytes
    → decode_loop (suc fuel) buf pos body
      ≡ decode_loop fuel buf (nl + 2 + suc n + 2) (body ++ bytes)
unfolding decode_loop
decode_loop-chunk fuel buf pos body nl n bytes e f g h =
    rw (e, decode_loop, f)
      (if_false _ _ (le→ltb _ _ g)
        ∙ ap (λ (s : Str). decode_loop fuel buf (nl + 2 + suc n + 2) (body ++ s)) h)

decode_loop-last :
    (fuel : ℕ) (buf : Str) (pos : ℕ) (body : Str) (nl : ℕ)
    → find_crlf buf pos ≡ some nl
    → parse_int 16 (slice pos nl buf) ≡ number 0
    → nl + 2 + 2 ≤ length buf
    → decode_loop (suc fuel) buf pos body ≡ decoded body (nl + 2 + 2)
unfolding decode_loop
decode_loop-last fuel buf pos body nl e f g = rw (e, decode_loop, f) (if_false _ _ (le→ltb _ _ g))

-- A buffer with a written chunk behind `pre`: a round goes on behind it, with its bytes.
decode_loop-write_chunk :
    (fuel : ℕ) (pre : Str) (b : ℕ) (bytes t body : Str)
    → decode_loop (suc fuel) (pre ++ (write_chunk (b ∷ bytes) ++ t)) (length pre) body
      ≡ decode_loop fuel
          (pre ++ (write_chunk (b ∷ bytes) ++ t))
          (length (pre ++ write_chunk (b ∷ bytes)))
          (body ++ b ∷ bytes)
unfolding write_chunk
decode_loop-write_chunk fuel pre b bytes t body =
    let n = length bytes in
    let size = to_string 16 (suc n) in
    let chunk = b ∷ bytes in
    let buf = pre ++ (write_chunk chunk ++ t) in
    let at_size : buf ≡ pre ++ (size ++ (crlf ++ (chunk ++ (crlf ++ t)))) = simp append_assoc in
    let at_chunk : buf ≡ (pre ++ (size ++ crlf)) ++ (chunk ++ (crlf ++ t)) = simp append_assoc in
    let start = length-append pre (size ++ crlf) in
    let start' = length-append size crlf in
    let total = length-append pre (write_chunk chunk) in
    let total' = length-append size (crlf ++ (chunk ++ crlf)) in
    let total'' = length-append bytes crlf in
    let found : find_crlf buf (length pre) ≡ some (length pre + length size) =
      ap (λ (x : Str). find_crlf x (length pre)) at_size
      ∙ find_crlf-append pre size (chunk ++ (crlf ++ t)) (size-Free (suc n)) in
    let read : parse_int 16 (slice (length pre) (length pre + length size) buf) ≡ number (suc n) =
      ap (λ (x : Str). parse_int 16 (slice (length pre) (length pre + length size) x)) at_size
      ∙ ap (parse_int 16) (slice-middle pre size (crlf ++ (chunk ++ (crlf ++ t))))
      ∙ parse_int-to_string 16 (suc n) (omega arith) (omega arith) in
    let nl = length pre + length size in
    let cut : slice (nl + 2) (nl + 2 + suc n) buf ≡ chunk =
      ap (slice (nl + 2) (nl + 2 + suc n)) at_chunk
      ∙ ap₂ (λ (x y : ℕ). slice x y ((pre ++ (size ++ crlf)) ++ (chunk ++ (crlf ++ t))))
          (omega arith) (omega arith)
      ∙ slice-middle (pre ++ (size ++ crlf)) chunk (crlf ++ t) in
    let room : nl + 2 + suc n + 2 ≤ length buf =
      omega
        (arith, length-append pre (write_chunk chunk ++ t), length-append (write_chunk chunk) t) in
    decode_loop-chunk fuel buf (length pre) body nl n chunk found read room cut
    ∙ ap (λ (k : ℕ). decode_loop fuel buf k (body ++ chunk)) (omega arith)

decode_loop-last_chunk :
    (fuel : ℕ) (pre rest body : Str)
    → decode_loop (suc fuel) (pre ++ (last_chunk ++ rest)) (length pre) body
      ≡ decoded body (length (pre ++ last_chunk))
unfolding to_string
decode_loop-last_chunk fuel pre rest body =
    let total = length-append pre last_chunk in
    let found = find_crlf-append pre (codes "0") (crlf ++ rest) (omega arith, tt) in
    let read : parse_int 16 (slice (length pre) (length pre + 1) (pre ++ (last_chunk ++ rest)))
        ≡ number 0 =
      ap (parse_int 16) (slice-middle pre (codes "0") (crlf ++ (crlf ++ rest)))
      ∙ parse_int-to_string 16 0 (omega arith) (omega arith) in
    decode_loop-last fuel (pre ++ (last_chunk ++ rest)) (length pre) body (length pre + 1) found
      read (omega (arith, length-append pre (last_chunk ++ rest)))
    ∙ ap (decoded body) (omega arith)

abbrev pub joined : List Str → Str
joined [] = []
joined (s ∷ chunks) = s ++ joined chunks

write_chunk-pos : (b : ℕ) (bytes : Str) → 0 < length (write_chunk (b ∷ bytes))
unfolding write_chunk
write_chunk-pos b bytes =
    let size = to_string 16 (suc (length bytes)) in
    omega (arith, length-append size (crlf ++ ((b ∷ bytes) ++ crlf)))

decode_loop-write_chunks :
    (fuel : ℕ) (pre : Str) (chunks : List Str) (rest body : Str)
    → length (write_chunks chunks) < fuel
    → decode_loop fuel (pre ++ (write_chunks chunks ++ (last_chunk ++ rest))) (length pre) body
      ≡ decoded (body ++ joined chunks) (length (pre ++ (write_chunks chunks ++ last_chunk)))
unfolding write_chunks
decode_loop-write_chunks zero pre chunks rest body h = absurd (omega arith)
decode_loop-write_chunks (suc fuel) pre [] rest body h =
    decode_loop-last_chunk fuel pre rest body
    ∙ ap (λ (s : Str). decoded s (length (pre ++ last_chunk))) (sym (append-nil body))
decode_loop-write_chunks (suc fuel) pre ([] ∷ chunks) rest body h =
    decode_loop-write_chunks (suc fuel) pre chunks rest body h
decode_loop-write_chunks (suc fuel) pre ((b ∷ bytes) ∷ chunks) rest body h =
    let chunk = b ∷ bytes in
    let w = write_chunk chunk in
    let t = write_chunks chunks in
    let back : pre ++ ((w ++ t) ++ (last_chunk ++ rest))
        ≡ (pre ++ w) ++ (t ++ (last_chunk ++ rest)) =
      simp append_assoc in
    ap (λ (s : Str). decode_loop (suc fuel) (pre ++ s) (length pre) body)
      (append_assoc w t (last_chunk ++ rest))
    ∙ decode_loop-write_chunk fuel pre b bytes (t ++ (last_chunk ++ rest)) body
    ∙ ap (λ (s : Str). decode_loop fuel s (length (pre ++ w)) (body ++ chunk))
        (sym (append_assoc pre w (t ++ (last_chunk ++ rest))))
    ∙ decode_loop-write_chunks fuel (pre ++ w) chunks rest (body ++ chunk)
        (omega (arith, write_chunk-pos b bytes, length-append w t))
    ∙ ap₂ (λ (x y : Str). decoded x (length y)) (append_assoc body chunk (joined chunks))
        (append_assoc pre w (t ++ last_chunk) ∙ ap (pre ++◌) (sym (append_assoc w t last_chunk)))

-- Whatever bodies are written, in whatever chunks, empty ones too: the chunks that were sent, with the
-- last chunk behind them, are decoded to the whole body, and what follows is left as it is. No
-- more and no less than what was sent counts as consumed.
pub decode_chunked_section-write_chunks :
    (chunks : List Str) (rest : Str)
    → decode_chunked_section (write_chunks chunks ++ (last_chunk ++ rest))
      ≡ decoded (joined chunks) (length (write_chunks chunks ++ last_chunk))
unfolding decode_chunked_section
decode_chunked_section-write_chunks chunks rest =
    decode_loop-write_chunks (suc (length (write_chunks chunks ++ (last_chunk ++ rest)))) [] chunks
      rest [] (omega (arith, length-append (write_chunks chunks) (last_chunk ++ rest)))
