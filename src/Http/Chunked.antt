-- ===== src/Http/Chunked.antt =====
-- `decodeChunkedSection` of jac/js_engine/engine/src/builtins/js/http_core.js, and the chunks that
-- `write` and `end` of ServerResponse in http.js of the same folder send.
pub mod RoundTrip
pub mod Endless
pub mod Ends
use jaseci.Prelude.{
  ◌^◌, ℕ, zero, suc, ◌+◌, ◌-◌, Bool, true, false, List, [], ◌∷◌, ◌++◌, Option, none, some, ltb,
  ◌==◌, if◌then◌else◌, Str, codes, length,
}
use jaseci.Numerals.{Parsed, nan, number, minus, to_string, parse_int}
use jaseci.Http.{crlf, slice, substring, find_crlf}

-- `incomplete` is the result null; `out_of_fuel` stands for a loop that is not done.
pub data Decoded : Type 0 where
  incomplete : Decoded
  decoded : Str → ℕ → Decoded
  out_of_fuel : Decoded

-- The loop; `body` is the text of the chunks so far. A chunk of a negative size ends before its start,
-- and the loop of findCRLF goes on at a place below 0 until it is at 0; but below -(2 ^ 53 + 2) adding 1 to
-- a double does not change it in the end, so that this loop does not end.
unfoldable pub decode_loop : ℕ → Str → ℕ → Str → Decoded
unfolding find_crlf substring
decode_loop zero buf pos body = out_of_fuel
decode_loop (suc fuel) buf pos body = elim (find_crlf buf pos) [
  | none ↦ incomplete
  | some nl ↦ elim (parse_int 16 (slice pos nl buf)) [
    | nan ↦ incomplete
    | number zero ↦ if ltb (length buf) (nl + 2 + 2) then incomplete else decoded body (nl + 2 + 2)
    | number (suc n) ↦
        let end = nl + 2 + suc n in
        let rest = decode_loop fuel buf (end + 2) (body ++ slice (nl + 2) end buf) in
        if ltb (length buf) (end + 2) then incomplete else rest
    | minus n ↦
        let next = nl + 2 + 2 - n in
        let rest = decode_loop fuel buf next (body ++ substring (nl + 2) (nl + 2 - n) buf) in
        if ltb (nl + 2 + 2 + (2 ^ 53 + 2)) n
        then out_of_fuel
        else if ltb (length buf) next
        then incomplete
        else rest
  ]
]

-- Fuel for a buffer in which no size is negative: each round goes on by 4 at least.
unfoldable pub decode_chunked_section : Str → Decoded
unfolding decode_loop
decode_chunked_section buf = decode_loop (suc (length buf)) buf 0 []

-- What `write` of a chunked response sends for the bytes of a chunk: nothing where there are none.
unfoldable pub write_chunk : Str → Str
unfolding to_string
write_chunk [] = []
write_chunk (b ∷ bytes) = to_string 16 (length (b ∷ bytes)) ++ (crlf ++ ((b ∷ bytes) ++ crlf))

unfoldable pub write_chunks : List Str → Str
unfolding write_chunk
write_chunks [] = []
write_chunks (bytes ∷ chunks) = write_chunk bytes ++ write_chunks chunks

-- The last chunk, which `end` sends.
abbrev pub last_chunk : Str
last_chunk = codes "0" ++ (crlf ++ crlf)
