-- ===== src/Http/Heads/RoundTrip.antt =====
-- The heads that http.js writes are parsed by http_core.js to what was written.
use jaseci.Prelude.{
  ℕ, ◌+◌, Bool, List, ◌∷◌, ◌++◌, some, Str, Free, All, length, take, ◌≡◌, ap, ◌∙◌, arith,
  append_assoc, take-append, length-append, index_of_text,
}
use jaseci.Http.{cr, crlf, ended, split_header_lines}
use jaseci.Http.Heads.{header_fields, response_of, parse_response_head}
use jaseci.Http.Heads.Sections.{
  between, ended-between, IsLine, index_of_text-between, split_header_lines-between,
}
use jaseci.Http.Heads.Written.{IsAccepted}
use jaseci.Http.Outgoing.{Request}

module _ (s : Str) (lines : List Str) (body : Str) (h : All IsLine (s ∷ lines)) where
  -- The text of a message with a head of these lines.
  abbrev message : Str
  message = (ended (s ∷ lines) ++ crlf) ++ body

  message-between : message ≡ between (s ∷ lines) ++ (crlf ++ (crlf ++ body))
  message-between =
      ap (λ (x : Str). (x ++ crlf) ++ body) (ended-between s lines) ∙ (simp append_assoc)

  pub head_end : index_of_text (crlf ++ crlf) message ≡ some (length (between (s ∷ lines)))
  head_end =
      ap (index_of_text (crlf ++ crlf)) message-between ∙ index_of_text-between s lines body h

  pub head_lines : split_header_lines (take (length (between (s ∷ lines))) message) ≡ s ∷ lines
  head_lines =
      ap (λ (x : Str). split_header_lines (take (length (between (s ∷ lines))) x)) message-between
      ∙ ap split_header_lines (take-append (between (s ∷ lines)) (crlf ++ (crlf ++ body)))
      ∙ split_header_lines-between s lines h

  pub head_size : length (between (s ∷ lines)) + 4 ≡ length (ended (s ∷ lines) ++ crlf)
  head_size = omega (
    arith,
    length-append (ended (s ∷ lines)) crlf,
    ap length (ended-between s lines),
    length-append (between (s ∷ lines)) crlf,
  )

  pub parse_response_head-message :
      (join : Bool)
      → parse_response_head message join
        ≡ response_of s (header_fields lines) (length (ended (s ∷ lines) ++ crlf)) join
  unfolding parse_response_head
  parse_response_head-message join =
      rw (head_end, parse_response_head, head_lines)
        (ap (λ (n : ℕ). response_of s (header_fields lines) n join) head_size)

-- A request whose method and target have no space and no CR, with headers that are accepted.
pub record IsRequest (r : Request) : Type 0 where
  pub method_word : Free b' ' r.method
  pub method_line : Free cr r.method
  pub uri_word : Free b' ' r.uri
  pub uri_line : Free cr r.uri
  pub headers : All IsAccepted r.headers
