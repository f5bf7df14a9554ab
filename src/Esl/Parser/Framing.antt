-- ===== src/Esl/Parser/Framing.antt =====
-- `_onData`, `_parseHeaders`, `_parseBody` and `_parseEvent`.
use next_call.Base.Assoc.{lookup, insert}
use next_call.Base.{
  ℕ, zero, suc, ◌+◌, Bool, true, false, Option, none, some, List, [], ◌∷◌, ◌++◌, if◌then◌else◌,
  length, take, drop, Bytes, codes, text_eq, starts_with,
}
use next_call.Esl.Value.Decimal.{show}
use next_call.Esl.Value.{
  Value, text, num, nan, parse_int, truthy, truthy_opt, slice_to, slice_from, shorter, above_zero,
}
use next_call.Esl.Event.{Fields, Event, new_event, new_typed, new_empty, get_header, add_header}
use next_call.Esl.Parser.Lines.{index_of_header_end, parse_header_text, parse_plain_body}

-- What `JSON.parse` makes of a text; an array is an object, and a scalar says if it is truthy.
pub data Json : Type 0 where
  null : Json
  object : Fields → Json
  string : Bytes → Json
  scalar : Bool → Json

-- The parsers that are not modelled: `none` stands for a text that they refuse by an exception.
pub record Codecs : Type 0 where
  pub json_parse : Bytes → Option Json
  pub xml_body : Option Bytes → Option Fields

-- `this.emit('error', e)` and `this.emit('esl::event', event, headers, body)`
pub data Emission : Type 0 where
  error : Emission
  event : Event → Fields → Option Bytes → Emission

pub record Parser : Type 0 where
  pub buffer : Bytes
  pub body_len : Value
  pub headers : Option Fields

-- The parser after a call, what it emitted, and if the call ended by an exception.
pub record Run : Type 0 where
  pub parser : Parser
  pub emissions : List Emission
  pub thrown : Bool

abbrev pub initial : Parser
initial = record { buffer = []; body_len = num 0; headers = none }

abbrev pub stop : Parser → Run
stop p = record { parser = p; emissions = []; thrown = false }

abbrev pub throw : Parser → Run
throw p = record { parser = p; emissions = []; thrown = true }

-- The emissions of a run, behind earlier ones.
abbrev pub emitted : List Emission → Run → Run
emitted es r = record { parser = r.parser; emissions = es ++ r.emissions; thrown = r.thrown }

-- `undefined` as a number
abbrev pub as_number : Option Value → Value
as_number none = nan
as_number (some v) = v

-- What `_parseEvent` emits, and if it throws.
pub record Outcome : Type 0 where
  pub emissions : List Emission
  pub thrown : Bool

-- The `Modesl-Reply-…` header that a reply adds.
note_reply : Bytes → Event → Event
unfolding starts_with add_header
note_reply reply e =
    if starts_with reply (codes "-ERR")
    then add_header (codes "Modesl-Reply-ERR") (text (drop 5 reply)) e
    else if starts_with reply (codes "+OK")
    then add_header (codes "Modesl-Reply-OK") (text (drop 4 reply)) e
    else e

-- `if (reply) …`; a number has no `indexOf`, which throws.
unfoldable pub massage : Option Value → Event → Option Event
unfolding note_reply truthy
massage none e = some e
massage (some (text reply)) e = if truthy (text reply) then some (note_reply reply e) else some e
massage (some v) e = if truthy v then none else some e

-- From `const reply` to the end.
unfoldable pub announce : List Emission → Fields → Option Bytes → Event → Outcome
unfolding massage get_header
announce es headers body e = elim (massage (get_header (codes "Reply-Text") e) e) [
  | none ↦ record { emissions = es; thrown = true }
  | some e' ↦ record { emissions = es ++ event e' headers body ∷ []; thrown = false }
]

-- `new Event(headers, body)`
abbrev pub raw_event : Fields → Option Bytes → Event
raw_event headers body = new_event headers (elim body [ none ↦ none | some b ↦ some (text b) ])

-- `parseInt(data['Content-Length'], 10)` in place of the field, where there is one
unfoldable pub fix_length : Fields → Fields
unfolding lookup insert show parse_int
fix_length fields = elim (lookup (codes "Content-Length") fields) [
  | none ↦ fields
  | some v ↦
      if truthy_opt (some v)
      then insert (codes "Content-Length") (parse_int (show v)) fields
      else fields
]

-- After `JSON.parse`: reading a field of `null` throws, which is caught and emitted.
unfoldable pub json_event : Fields → Option Bytes → Option Json → Outcome
unfolding announce fix_length
json_event headers body none = announce (error ∷ []) headers body (raw_event headers body)
json_event headers body (some null) = announce (error ∷ []) headers body (raw_event headers body)
json_event headers body (some (object fields)) =
    announce [] headers body (new_event (fix_length fields) none)
json_event headers body (some (string [])) = announce [] headers body (raw_event headers body)
json_event headers body (some (string (c ∷ s))) = announce [] headers body (new_typed (c ∷ s) [])
json_event headers body (some (scalar true)) = announce [] headers body new_empty
json_event headers body (some (scalar false)) = announce [] headers body (raw_event headers body)

-- The data of a plain or an XML body, `none` where reading it threw.
unfoldable pub fields_event : Fields → Option Bytes → Option Fields → Outcome
unfolding announce
fields_event headers body none = record { emissions = []; thrown = true }
fields_event headers body (some fields) = announce [] headers body (new_event fields none)

-- `JSON.parse(null)` reads the text `null`; `null.indexOf` throws.
unfoldable pub json_text : Option Bytes → Bytes
unfolding codes
json_text none = codes "null"
json_text (some b) = b

unfoldable pub plain_fields : Option Bytes → Option Fields
unfolding parse_plain_body
plain_fields none = none
plain_fields (some b) = parse_plain_body b

-- `switch (headers['Content-Type'])`
unfoldable pub is_text : Option Value → Bytes → Bool
is_text (some (text t)) s = text_eq t s
is_text _ s = false

module _ (codecs : Codecs) where
  unfoldable pub event_of : Fields → Option Bytes → Outcome
  unfolding json_event fields_event json_text plain_fields is_text lookup
  event_of headers body =
      let type = lookup (codes "Content-Type") headers in
      if is_text type (codes "text/event-json")
      then json_event headers body (codecs.json_parse (json_text body))
      else if is_text type (codes "text/event-plain")
      then fields_event headers body (plain_fields body)
      else if is_text type (codes "text/event-xml")
      then fields_event headers body (codecs.xml_body body)
      else announce [] headers body (raw_event headers body)

  -- `_parseEvent`; a field of `undefined` headers throws.
  unfoldable pub parse_event : Option Fields → Option Bytes → Outcome
  unfolding event_of
  parse_event none body = record { emissions = []; thrown = true }
  parse_event (some headers) body = event_of headers body

  -- The statements after a call of `_parseEvent`, unless it throws.
  abbrev pub then_continue : Outcome → Parser → (Parser → Run) → Run
  then_continue o p k = emitted o.emissions (if o.thrown then throw p else k p)

  -- `_parseBody`, where `k` is its call of `_parseHeaders`
  unfoldable pub body_round : (Parser → Run) → Parser → Run
  unfolding slice_to slice_from shorter
  body_round k p =
      if shorter (length p.buffer) p.body_len
      then stop p
      else then_continue (parse_event p.headers (some (slice_to p.body_len p.buffer)))
          (record p { buffer = slice_from p.body_len p.buffer; body_len = num 0 }) k

  -- `if (this.buffer.length) f()`
  abbrev pub if_buffered : (Parser → Run) → Parser → Run
  if_buffered f p = elim p.buffer [ [] ↦ stop p | c ∷ s ↦ f p ]

  -- `_parseHeaders` once the header text is parsed
  unfoldable pub headers_parsed : (Parser → Run) → Option Fields → Parser → Run
  unfolding body_round lookup truthy
  headers_parsed k none p = throw p
  headers_parsed k (some headers) p =
      let stated = lookup (codes "Content-Length") headers in
      if truthy_opt stated
      then if_buffered (body_round k) (record p { body_len = as_number stated })
      else then_continue (parse_event (some headers) none) p (if_buffered k)

  -- `_parseHeaders`, where `k` is its further calls
  unfoldable pub headers_round : (Parser → Run) → Parser → Run
  unfolding headers_parsed index_of_header_end parse_header_text
  headers_round k p = elim (index_of_header_end p.buffer) [
    | none ↦ stop p
    | some i ↦
        let parsed = parse_header_text (take i p.buffer) in
        headers_parsed k parsed (record p { buffer = drop (i + 2) p.buffer; headers = parsed })
  ]

  -- `_parseHeaders` on fuel: each round takes two bytes at least off the buffer, so the buffer's
  -- length is enough, and without fuel there is no byte left to parse.
  unfoldable pub headers_loop : ℕ → Parser → Run
  unfolding headers_round
  headers_loop zero p = stop p
  headers_loop (suc fuel) p = headers_round (headers_loop fuel) p

  unfoldable pub parse_headers : Parser → Run
  unfolding headers_loop
  parse_headers p = headers_loop (length p.buffer) p

  unfoldable pub parse_body : Parser → Run
  unfolding body_round parse_headers
  parse_body p = body_round parse_headers p

  -- `_onData`
  unfoldable pub on_data : Parser → Bytes → Run
  unfolding parse_body parse_headers above_zero
  on_data p data' =
      let p' = record p { buffer = p.buffer ++ data' } in
      if above_zero p.body_len then parse_body p' else parse_headers p'
