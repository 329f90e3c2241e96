-- ===== src/Lib.antt =====
-- The text, path, name, event, tracing, message, URL and address modules of the JavaScript engine's
-- Node library, which stand in jac/js_engine/engine/src/builtins/js. A JavaScript string is a list of UTF-16 code units (numbers),
-- a buffer is a list of bytes, and a thrown error is a value of a result type or `none`.
--
-- * Path models path.js, its POSIX functions: normalize, join (join_paths), resolve, dirname,
--   basename, extname, isAbsolute (is_absolute), relative, parse, format. The array that
--   `_normParts` fills is held as a stack, its last element first. `process.cwd()` is a parameter.
--   Path/Norm and Path/Render hold what a normalised stack is and how it is shown.
-- * Unicode describes code points, UTF-16 units and UTF-8 bytes independently of any module.
-- * TextCodec models `_utf8EncodeString` and `_utf8DecodeBytes` of text_codec.js, and TextCodec/Classes
--   its TextEncoder and TextDecoder, whose native hooks are arguments.
-- * Slices models the functions of string_decoder.js that decode a whole slice, StringDecoder the
--   decoder with its state between two chunks: `_buf` is buf, `_needed` is needed, `_charLen` is
--   char_len. Boundary, Trailing, Fill and Stream lead to the theorem of Session.
-- * Punycode models punycode.js: encode, decode, ucs2 (ucs2_encode, ucs2_decode), and
--   Punycode/Domains toASCII (to_ascii) and toUnicode (to_unicode).
-- * Querystring models escape and unescape of querystring.js with the language's
--   decodeURIComponent, Querystring/Objects its parse and stringify.
-- * Events models EventEmitter of events.js: the object `_events` is a list of names and addresses of
--   arrays, so that `emit`, which holds an array while listeners run, sees what they do to it.
--   Events/Emit has the operations that call listeners; a listener is an argument of the model, any
--   function from the emitter to the emitter and an error thrown. `on`, `once` and the two that
--   prepend are add_listener, removeAllListeners is remove_all and remove_every.
-- * EventTarget models Event and EventTarget of event_target.js in the same way.
-- * Diagnostics models diagnostics_channel.js: the registry `_channels` and the channels at their
--   addresses; Diagnostics/Tracing and Diagnostics/Callbacks the class TracingChannel. Subscribers and
--   traced functions are arguments of the model, functions of the whole state. A context may be frozen, and
--   then the assignment to it throws.
-- * Http models http_core.js: lines, Http/Headers the object of the header fields, Http/Heads the heads of
--   requests and responses, Http/Chunked and Http/Bodies the bodies, Http/Validators and Http/Routes the
--   rest; what `new URL` makes of the location of a redirect is an argument.
--   Http/Outgoing has the heads that http.js writes, Http/Chunked the chunks that it writes.
-- * Net models the addresses of net.js, Net/BlockList its class BlockList, whose `_rules` are a list.
-- * SearchParams models the class URLSearchParams of url.js, with `_search` of the URL that it belongs to.
--   Its percent-decoder is the text of `unescape` in querystring.js, so that the model uses that one.
-- * Urls models `_normalizePath`, `_percentDecodePath` and `fileURLToPath` of url.js, whose percent-encoded
--   byte is what `octet` of Querystring reads.
-- * FetchHeaders models the class Headers of fetch.js, with the loops of SearchParams.
-- * Numerals describes how the language writes and reads numbers as text.
-- * Prelude holds the names that they share, Tests the runs at concrete inputs.
--
-- A loop over a string or an array is a recursion over a list, where the index is what is left of
-- it; a round that takes several elements says how many the next rounds skip. Four loops of
-- punycode.js consume no list and take fuel: `_adapt` its first delta, the outer loop of decode the
-- length of the input, the outer loop of encode the number of code points, the digits of a number
-- the number plus one. `_adapt` returns what it has when the fuel is out, and Punycode/Fuel shows that its
-- loop has ended by its test then; for the others running out is an error of its own, and the theorems on
-- termination show that it does not happen.
--
-- Numbers are natural numbers: where the source subtracts, the text says why the
-- difference is not negative or what a negative one does, and no sum leaves the integers
-- that a double holds exactly, but for a chunk size far below zero, which decode_loop tells apart.
--
-- `emit` takes fuel for how deep the errors of listeners on "error" are emitted again, and the loop of
-- removeAllListeners for its rounds: listeners may make both endless in the source, and the theorems
-- are about calls where one unit of fuel or none is used.
--
-- The loops of `splitHeaderLines` and `decodeChunkedSection` take the length of their text as fuel. The
-- first goes on by 2 units at least in each round. The second may go back where a size is negative,
-- and then need not end; where there is no minus sign the fuel is enough. Running out of it is a result
-- of its own.
--
-- The outer loop of the `sort` of URLSearchParams takes the length of its list as fuel, of which each
-- round uses one for the one place that it fills.
--
-- `to_lower_case` is exact for the letters of Latin-1 and leaves all others as they are, so that text whose
-- other letters have a small form is outside of the model.
--
-- Not modelled: arguments of a type other than the documented one, promises that listeners return,
-- event names that Object.prototype holds, the reading of views into bytes, CustomEvent,
-- separators of more than one code unit and the key `__proto__` of querystring.js, what http_core.js
-- does with the class URL, numbers with an exponent as octets of an address,
-- the value of a `Content-Length` with a fraction or an exponent (a result of its own), `fromJSON` of BlockList,
-- sockets, the class URL, the legacy parser and the iterators of URLSearchParams, and the
-- modules of the directory that wrap native services.
pub mod Prelude
pub mod Unicode
pub mod Path
pub mod TextCodec
pub mod Slices
pub mod StringDecoder
pub mod Punycode
pub mod Querystring
pub mod Events
pub mod Diagnostics
pub mod Numerals
pub mod Http
pub mod Net
pub mod SearchParams
pub mod Urls
pub mod FetchHeaders
pub mod Tests
pub mod EventTarget
