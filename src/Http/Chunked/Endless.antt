-- ===== src/Http/Chunked/Endless.antt =====
-- A negative size of a chunk takes `decodeChunkedSection` of http_core.js back to where it was.
use jaseci.Prelude.{ℕ, zero, suc, ◌++◌, Str, codes, ◌≡◌, refl, false, length, ltb, le→ltb, arith}
use jaseci.Numerals.{parse_int}
use jaseci.Http.{crlf, find_crlf}
use jaseci.Http.Chunked.{out_of_fuel, decode_loop}

-- A buffer that starts with a chunk of the size -6 is decoded for ever, whatever follows: no number of
-- rounds is enough.
pub decode_loop-endless :
    (fuel : ℕ) (rest body : Str)
    → decode_loop fuel (codes "-6" ++ (crlf ++ rest)) 0 body ≡ out_of_fuel
unfolding decode_loop find_crlf parse_int
decode_loop-endless zero rest body = refl
decode_loop-endless (suc fuel) rest body =
    let more : ltb (length (codes "-6" ++ (crlf ++ rest))) 0 ≡ false = le→ltb _ _ (omega arith) in
    rw more (decode_loop-endless fuel rest _)
