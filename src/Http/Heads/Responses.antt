-- ===== src/Http/Heads/Responses.antt =====
-- The head of a response that http.js writes is parsed by http_core.js to what was written.
use jaseci.Prelude.{ℕ, none, some, Str, Free, All, ◌≢◌}
use jaseci.Http.{cr}
use jaseci.Http.Heads.Written.{IsAccepted, Unspaced}
use jaseci.Http.Outgoing.{Response}

-- The message that a response is sent with.
abbrev pub message_of : Str → Response → Str
message_of reason r = elim r.status_message [ none ↦ reason | some s ↦ s ]

-- A response whose message and date have no CR, with headers that are accepted.
pub record IsResponse (reason date : Str) (r : Response) : Type 0 where
  pub message_line : Free cr (message_of reason r)
  pub date_line : Free cr date
  pub date_start : Unspaced date
  pub headers : All IsAccepted r.headers

-- The digits of a code are no space and no CR.
abbrev IsCodeUnit : ℕ → Type 0
IsCodeUnit c = (c ≢ b' ') × (c ≢ cr)
