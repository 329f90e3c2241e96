-- ===== src/TextCodec/Classes.antt =====
-- The classes TextEncoder and TextDecoder of text_codec.js on buffers of bytes. The native hooks are
-- arguments: each is missing, or a function that may leave the call to the JavaScript code (`none`).
use jaseci.Prelude.{
  ℕ, ◌≤◌, Bool, true, false, not, ◌||◌, List, [], ◌++◌, Option, none, some, ltb, if◌then◌else◌,
  Bool-cases, ◌⊎◌, Str, codes, str_eq, length, take, drop, length-append, length-take, length-drop,
  ◌≡◌, refl, ap, ◌∙◌, arith, All,
}
use jaseci.Unicode.{Bytes, utf8, utf16}
use jaseci.Unicode.Cases.{IsPoint}
use jaseci.Slices.{to_lower}
use jaseci.TextCodec.{utf8_encode_string, utf8_decode_bytes}
use jaseci.TextCodec.Decode.{utf8_decode_bytes-utf8}

unfoldable pub normalize_label : Option Str → Str
unfolding to_lower str_eq
normalize_label none = codes "utf-8"
normalize_label (some label) =
    let e = to_lower label in
    if str_eq label [] || str_eq e (codes "utf8") || str_eq e (codes "utf-8")
    then codes "utf-8"
    else e

pub record TextDecoder : Type 0 where
  pub encoding : Str
  pub fatal : Bool

unfoldable pub new_decoder : Option Str → Bool → TextDecoder
unfolding normalize_label
new_decoder label fatal = record { encoding = normalize_label label; fatal = fatal }

-- A text, the TypeError of invalid input, or the RangeError of an unsupported encoding.
pub data Decoded : Type 0 where
  decoded : Str → Decoded
  type_error range_error : Decoded

unfoldable pub fallback : Bool → Bytes → Decoded
unfolding utf8_decode_bytes
fallback fatal bytes = elim (utf8_decode_bytes fatal bytes) [
  | none ↦ type_error
  | some s ↦ decoded s
]

-- `__buf.tdDecode`, with `fatal`, and `__buf.decodeUtf8` on the memory of the input.
abbrev pub DecodeHook : Type 0
DecodeHook = Option (Bool → Bytes → Option Decoded)

abbrev pub MemoryHook : Type 0
MemoryHook = Option (Bytes → Option Str)

-- The part of `decode` after the first hook.
unfoldable pub decode_memory : MemoryHook → Bool → Bytes → Decoded
unfolding fallback
decode_memory none fatal bytes = fallback fatal bytes
decode_memory (some f) fatal bytes = elim (f bytes) [
  | none ↦ fallback fatal bytes
  | some s ↦ decoded s
]

unfoldable pub decode_utf8_label : DecodeHook → MemoryHook → Bool → Bytes → Decoded
unfolding decode_memory
decode_utf8_label none memory fatal bytes = decode_memory memory fatal bytes
decode_utf8_label (some f) memory fatal bytes = elim (f fatal bytes) [
  | none ↦ decode_memory memory fatal bytes
  | some r ↦ r
]

-- `TextDecoder.prototype.decode`
unfoldable pub text_decode : DecodeHook → MemoryHook → TextDecoder → Bytes → Decoded
unfolding decode_utf8_label str_eq
text_decode hook memory d bytes =
    if not (str_eq d.encoding (codes "utf-8"))
    then range_error
    else decode_utf8_label hook memory d.fatal bytes

-- `__buf.utf8ByteLength` and `__buf.writeString` together: the bytes written.
abbrev pub EncodeHook : Type 0
EncodeHook = Option (Str → Option Bytes)

-- `TextEncoder.prototype.encode` on a string.
unfoldable pub text_encode : EncodeHook → Str → Bytes
unfolding utf8_encode_string
text_encode none input = utf8_encode_string input
text_encode (some f) input = elim (f input) [ none ↦ utf8_encode_string input | some out ↦ out ]

-- `encodeInto`: the destination, and the fields read and written of the result.
unfoldable pub encode_into : EncodeHook → Str → Bytes → Bytes × ℕ × ℕ
unfolding text_encode
encode_into hook source destination =
    let encoded = text_encode hook source in
    let written =
      if ltb (length destination) (length encoded) then length destination else length encoded in
    (take written encoded ++ drop written destination, length source, written)

-- `encodeInto` keeps the length of the destination, and writes no more bytes than it has.
pub encode_into-length :
    (hook : EncodeHook) (source : Str) (destination : Bytes)
    → (length (encode_into hook source destination).0 ≡ length destination)
      × ((encode_into hook source destination).2 ≤ length destination)
unfolding encode_into
encode_into-length hook source destination =
    go (text_encode hook source)
      (Bool-cases (ltb (length destination) (length (text_encode hook source))))
  where
    written : Bytes → ℕ
    written encoded =
        if ltb (length destination) (length encoded) then length destination else length encoded

    size :
        (encoded : Bytes) (n : ℕ)
        → n ≤ length encoded
        → n ≤ length destination
        → length (take n encoded ++ drop n destination) ≡ length destination
    size encoded n h k =
        length-append (take n encoded) (drop n destination)
        ∙ omega (arith, length-take n encoded h, length-drop n destination)

    go :
        (encoded : Bytes)
        → (ltb (length destination) (length encoded) ≡ true)
          ⊎ (ltb (length destination) (length encoded) ≡ false)
        → (length (take (written encoded) encoded ++ drop (written encoded) destination)
            ≡ length destination)
          × (written encoded ≤ length destination)
    go encoded c = (size encoded (written encoded) (ground arith) (ground arith), ground arith)

-- The hooks answer as the JavaScript code, where they answer.
abbrev pub HookAgrees : DecodeHook → Type 0
HookAgrees none = Unit
HookAgrees (some f) =
    (fatal : Bool) (bytes : Bytes) (r : Decoded) → f fatal bytes ≡ some r → r ≡ fallback fatal bytes

-- Where the hook on memory answers on well-formed input, it answers with its text.
abbrev pub MemoryAgrees : MemoryHook → Type 0
MemoryAgrees none = Unit
MemoryAgrees (some f) =
    (cs : List ℕ) (s : Str) → All IsPoint cs → f (utf8 cs) ≡ some s → s ≡ utf16 cs

fallback-utf8 :
    (fatal : Bool) (cs : List ℕ) → All IsPoint cs → fallback fatal (utf8 cs) ≡ decoded (utf16 cs)
unfolding fallback
fallback-utf8 fatal cs h = rw (utf8_decode_bytes-utf8 fatal cs h, fallback) refl

decode_memory-utf8 :
    (memory : MemoryHook) (fatal : Bool) (cs : List ℕ)
    → MemoryAgrees memory
    → All IsPoint cs
    → decode_memory memory fatal (utf8 cs) ≡ decoded (utf16 cs)
unfolding decode_memory
decode_memory-utf8 none fatal cs m h = fallback-utf8 fatal cs h
decode_memory-utf8 (some f) fatal cs m h = go (f (utf8 cs)) refl
  where
    go :
        (o : Option Str)
        → f (utf8 cs) ≡ o
        → (elim o as (λ o. Decoded) [ none ↦ fallback fatal (utf8 cs) | some s ↦ decoded s ])
          ≡ decoded (utf16 cs)
    go none e = fallback-utf8 fatal cs h
    go (some s) e = ap decoded (m cs s h e)

decode_label-utf8 :
    (hook : DecodeHook) (memory : MemoryHook) (fatal : Bool) (cs : List ℕ)
    → HookAgrees hook
    → MemoryAgrees memory
    → All IsPoint cs
    → decode_utf8_label hook memory fatal (utf8 cs) ≡ decoded (utf16 cs)
unfolding decode_utf8_label
decode_label-utf8 none memory fatal cs a m h = decode_memory-utf8 memory fatal cs m h
decode_label-utf8 (some f) memory fatal cs a m h = go (f fatal (utf8 cs)) refl
  where
    go :
        (o : Option Decoded)
        → f fatal (utf8 cs) ≡ o
        → (elim o as (λ o. Decoded) [ none ↦ decode_memory memory fatal (utf8 cs) | some r ↦ r ])
          ≡ decoded (utf16 cs)
    go none e = decode_memory-utf8 memory fatal cs m h
    go (some r) e = a fatal (utf8 cs) r e ∙ fallback-utf8 fatal cs h

-- A decoder whose encoding is utf-8 decodes the UTF-8 bytes of code points below 0x110000 to their
-- UTF-16 text, whichever hooks there are, if they agree with the JavaScript code.
pub text_decode-utf8 :
    (hook : DecodeHook) (memory : MemoryHook) (d : TextDecoder) (cs : List ℕ)
    → HookAgrees hook
    → MemoryAgrees memory
    → str_eq d.encoding (codes "utf-8") ≡ true
    → All IsPoint cs
    → text_decode hook memory d (utf8 cs) ≡ decoded (utf16 cs)
unfolding text_decode
text_decode-utf8 hook memory d cs a m e h = rw e (decode_label-utf8 hook memory d.fatal cs a m h)
