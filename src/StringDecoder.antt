-- ===== src/StringDecoder.antt =====
-- The class `StringDecoder` of jac/js_engine/engine/src/builtins/js/string_decoder.js: its state,
-- `write` for each encoding, and `end`.
mod Boundary
mod Trailing
mod Fill
pub mod Stream
pub mod Session
pub mod Groups
pub mod Pairs
use jaseci.Prelude.{
  ℕ, zero, suc, ◌+◌, ◌-◌, ◌/◌, ◌%◌, Bool, true, false, not, ◌&&◌, List, [], ◌∷◌, ◌++◌, map, reverse,
  Option, ltb, leb, ◌==◌, if◌then◌else◌, Str, length, take, drop, replicate,
}
use jaseci.Unicode.{Bytes}
use jaseci.Slices.{
  Encoding, utf8, ascii, latin1, hex, base64, utf16le, normalize_encoding, utf8_char_length,
  decode_utf8, decode_utf16le, encode_base64, decode_slice,
}

pub record Decoder : Type 0 where
  pub encoding : Encoding
  pub buf : Bytes
  pub needed : ℕ
  pub char_len : ℕ

-- `new StringDecoder(encoding)`
unfoldable pub new : Option Str → Decoder
new encoding = record { encoding = normalize_encoding encoding; buf = []; needed = 0; char_len = 0 }

-- The argument of `write` and `end`: `undefined` or `null`, a string, or a buffer.
pub data Chunk : Type 0 where
  missing : Chunk
  text : Str → Chunk
  buffer : Bytes → Chunk

-- `buffer[i] & 0xff` for each byte
abbrev pub masked : Bytes → Bytes
masked = map (λ b. b % 256)

-- The loop of `_utf8IncompleteEnd`, backwards from the end, with the rounds that `maxBack` leaves
-- and the bytes from here to the end.
unfoldable pub back_loop : ℕ → ℕ → Bytes → ℕ
back_loop zero available before = 0
back_loop (suc rounds) available [] = 0
back_loop (suc rounds) available (x ∷ before) =
    let b = x % 256 in
    let further = back_loop rounds (available + 1) before in
    if not (b / 64 == 2)
    then (if ltb available (utf8_char_length b) then available else 0)
    else further

unfoldable pub utf8_incomplete_end : Bytes → ℕ
utf8_incomplete_end buf = back_loop (if ltb (length buf) 4 then length buf else 4) 1 (reverse buf)

-- The loop of `_doWriteUtf8` that completes the buffered character: the bytes buffered then, and
-- what is left of the chunk.
unfoldable pub fill : ℕ → Bytes → Bytes → Bytes × Bytes
fill char_len buf [] = (buf, [])
fill char_len buf (b ∷ chunk) =
    let more = fill char_len (buf ++ (b % 256 ∷ [])) chunk in
    if ltb (length buf) char_len then more else (buf, b ∷ chunk)

-- Steps 2 and 3 of `_doWriteUtf8`, on what is left of the chunk.
unfoldable pub write_rest : Decoder → Bytes → Decoder × Str
write_rest d chunk =
    let trail = utf8_incomplete_end chunk in
    let complete = take (length chunk - trail) chunk in
    let kept = masked (drop (length chunk - trail) chunk) in
    let len : ℕ = elim kept [ [] ↦ 0 | b ∷ _ ↦ utf8_char_length b ] in
    if ltb 0 trail
    then (record d { buf = kept; char_len = len; needed = len - length kept }, decode_utf8 complete)
    else (d, decode_utf8 chunk)

unfoldable pub write_utf8 : Decoder → Bytes → Decoder × Str
unfolding fill write_rest
write_utf8 d chunk =
    let (filled, rest) = fill d.char_len d.buf chunk in
    let cleared = record d { buf = []; needed = 0; char_len = 0 } in
    let (d', out) = write_rest cleared rest in
    if ltb 0 (length d.buf)
    then (if leb d.char_len (length filled)
        then (d', decode_utf8 (take d.char_len filled) ++ out)
        else (record d { buf = filled; needed = d.char_len - length filled }, []))
    else write_rest d chunk

-- `_doWriteUtf16le`: the even part of what is left of the chunk is decoded, an odd byte is kept.
unfoldable pub write_pairs : Decoder → Bytes → Decoder × Str
write_pairs d chunk =
    let remaining = length chunk in
    let use_len = remaining - remaining % 2 in
    let kept = if remaining % 2 == 0 then d.buf else masked (drop (remaining - 1) chunk) in
    (record d { buf = kept }, if ltb 0 use_len then decode_utf16le (take use_len chunk) else [])

unfoldable pub write_utf16le : Decoder → Bytes → Decoder × Str
unfolding write_pairs
write_utf16le d chunk =
    let joined = d.buf ++ masked (take 1 chunk) in
    let paired = leb 2 (length joined) in
    let d1 = record d { buf = if paired then [] else joined } in
    let (d', out) = write_pairs d1 (drop 1 chunk) in
    if ltb 0 (length d.buf)
    then (d', (if paired then decode_utf16le (take 2 joined) else []) ++ out)
    else write_pairs d chunk

unfoldable pub write_base64 : Decoder → Bytes → Decoder × Str
write_base64 d chunk =
    let available = length d.buf + length chunk in
    let usable = available - available % 3 in
    let merged = d.buf ++ masked chunk in
    let decoded = if ltb (length merged) usable then length merged else usable in
    (
      record d { buf = drop decoded merged },
      if decoded == 0 then [] else decode_slice base64 (take decoded merged),
    )

abbrev pub write_buffer : Encoding → Decoder → Bytes → Decoder × Str
write_buffer utf8 d chunk = write_utf8 d chunk
write_buffer ascii d chunk = (d, decode_slice ascii chunk)
write_buffer latin1 d chunk = (d, decode_slice latin1 chunk)
write_buffer hex d chunk = (d, decode_slice hex chunk)
write_buffer base64 d chunk = write_base64 d chunk
write_buffer utf16le d chunk = write_utf16le d chunk

unfoldable pub write : Decoder → Chunk → Decoder × Str
unfolding write_utf8 write_utf16le write_base64
write d missing = (d, [])
write d (text s) = (d, s)
write d (buffer chunk) = if length chunk == 0 then (d, []) else write_buffer d.encoding d chunk

-- What `end` adds for the bytes that are still buffered.
unfoldable pub flush : Encoding → Bytes → Str
flush utf8 buf = replicate (length buf) 0xfffd
flush utf16le buf = buf
flush base64 buf = encode_base64 buf
flush enc buf = decode_slice enc buf

unfoldable pub end : Decoder → Chunk → Decoder × Str
unfolding flush write
end d chunk =
    let (d', out) = write d chunk in
    if ltb 0 (length d'.buf)
    then (record d' { buf = []; needed = 0; char_len = 0 }, out ++ flush d'.encoding d'.buf)
    else (d', out)
