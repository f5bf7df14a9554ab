-- ===== src/Esl/Parser/Lengths.antt =====
-- The `Content-Length` that a header block states, and that the emissions show it.
use next_call.Base.Assoc.{lookup, lookup-insert, lookup_nil}
use next_call.Base.{
  ℕ, ◌≡◌, refl, ◌∙◌, ap, subst, Bool, true, false, Option, none, some, List, [], ◌∷◌, ◌++◌, length,
  All, Bytes, Bool-cases, Option-cases, inl, inr, arith, codes, text_eq, if◌then◌else◌,
}
use mathlib.Core.Option.{some-injective}
use next_call.Esl.Event.{Fields, Event, get_header, new_empty}
use next_call.Esl.Value.{
  Value, num, truthy, truthy_opt, text, neg, nan, slice_from, slice_to, shorter, above_zero,
  parse_int,
}
use next_call.Esl.Parser.Lines.{
  parse_header_text, add_line, add_lines, add_pieces, line_value, split_colon, split_lines,
}
use next_call.Esl.Parser.Framing.{
  Codecs, Parser, Run, Outcome, Emission, error, event, stop, then_continue, if_buffered,
  parse_event, body_round, as_number, announce, massage, json_event, fields_event, event_of, Json,
  null, object, string, scalar,
}
use next_call.Esl.Parser.Rounds.{body_round_whole}

abbrev pub negative : Value → Bool
negative (neg n) = true
negative _ = false

abbrev pub stated_length : Fields → Option Value
stated_length hs = lookup (codes "Content-Length") hs

-- An event whose header block does not state a negative `Content-Length`.
abbrev pub IsSane : Emission → Type 0
IsSane error = Unit
IsSane (event e hs body) = negative (as_number (stated_length hs)) ≡ false

abbrev pub textual : Option Value → Bool
textual (some (text t)) = true
textual _ = false

parse_int_number : (s : Bytes) → textual (some (parse_int s)) ≡ false
unfolding parse_int
parse_int_number s = ground arith

add_pieces_number :
    (hs : Fields) (ps : List Bytes)
    → textual (stated_length hs) ≡ false
    → textual (stated_length (add_pieces hs ps)) ≡ false
unfolding add_pieces
add_pieces_number hs [] h = h
add_pieces_number hs (key ∷ ps) h = elim (Bool-cases (text_eq key (codes "Content-Length"))) [
  | inl e ↦ rw (lookup-insert, e) (parse_int_number (line_value key ps))
  | inr e ↦ rw (lookup-insert, e) h
]

add_lines_number :
    (lines : List Bytes) (hs : Fields)
    → textual (stated_length hs) ≡ false
    → textual (stated_length (add_lines hs lines)) ≡ false
unfolding add_lines
add_lines_number [] hs h = h
add_lines_number (line ∷ lines) hs h =
    add_lines_number lines _ (unfold add_line in add_pieces_number hs (split_colon line) h)

-- The length that a header block states is a number.
pub parse_header_text_number :
    (txt : Bytes) (hs : Fields)
    → parse_header_text txt ≡ some hs
    → textual (stated_length hs) ≡ false
parse_header_text_number [] hs h = unfold parse_header_text in cc
parse_header_text_number (c ∷ txt) hs h =
    subst (λ m. textual (stated_length m) ≡ false)
      (some-injective (add_lines [] (split_lines (c ∷ txt))) hs (unfold parse_header_text in h))
      (add_lines_number (split_lines (c ∷ txt)) [] (rw lookup_nil))

pub All-suffix {ℓ κ} : {A : Type ℓ} (P : A → Type κ) (xs ys : List A) → All P (xs ++ ys) → All P ys
All-suffix P [] ys h = h
All-suffix P (x ∷ xs) ys (p, h) = All-suffix P xs ys h

-- If no exception is thrown, what is emitted shows the length that the header block states.
record Shows (hs : Fields) (o : Outcome) : Type 0 where
  shown :
      o.thrown ≡ false → All IsSane o.emissions → negative (as_number (stated_length hs)) ≡ false

Shows-if :
    (b : Bool) {hs : Fields} {x y : Outcome}
    → Shows hs x
    → Shows hs y
    → Shows hs (if b then x else y)
Shows-if true hx hy = hx
Shows-if false hx hy = hy

announce-Shows :
    (es : List Emission) (hs : Fields) (body : Option Bytes) (e : Event)
    → Shows hs (announce es hs body e)
unfolding announce
announce-Shows es hs body e = elim (Option-cases (massage (get_header (codes "Reply-Text") e) e)) [
  | inl m ↦ rw (m, announce) (record { shown = λ t s. cc t })
  | inr (e', m) ↦
      rw (m, announce)
        (record { shown = λ t s. (All-suffix IsSane es (event e' hs body ∷ []) s).0 })
]

module _ (hs : Fields) (body : Option Bytes) where
  json_event-Shows : (j : Option Json) → Shows hs (json_event hs body j)
  unfolding json_event
  json_event-Shows none = announce-Shows _ hs body _
  json_event-Shows (some null) = announce-Shows _ hs body _
  json_event-Shows (some (object fields)) = announce-Shows _ hs body _
  json_event-Shows (some (string [])) = announce-Shows _ hs body _
  json_event-Shows (some (string (c ∷ s))) = announce-Shows _ hs body _
  json_event-Shows (some (scalar true)) = announce-Shows [] hs body new_empty
  json_event-Shows (some (scalar false)) = announce-Shows _ hs body _

  fields_event-Shows : (fields : Option Fields) → Shows hs (fields_event hs body fields)
  unfolding fields_event
  fields_event-Shows none = record { shown = λ t s. cc t }
  fields_event-Shows (some fields) = announce-Shows _ hs body _

  event_of-Shows : (codecs : Codecs) → Shows hs (event_of codecs hs body)
  unfolding event_of
  event_of-Shows codecs = search (Shows-if, json_event-Shows, fields_event-Shows, announce-Shows)

pub negative_length :
    (o : Option Value)
    → truthy_opt o ≡ true
    → textual o ≡ false
    → above_zero (as_number o) ≡ false
    → negative (as_number o) ≡ true
unfolding truthy above_zero
negative_length none t n h = cc t
negative_length (some (text x)) t n h = cc n
negative_length (some (num n)) t m h = cc (t, h)
negative_length (some (neg n)) t m h = refl
negative_length (some nan) t n h = cc t

never_short : (l : ℕ) (v : Value) → negative v ≡ true → shorter l v ≡ false
unfolding shorter
never_short l (num n) h = cc h
never_short l (text t) h = cc h
never_short l (neg n) h = refl
never_short l nan h = cc h

All-prefix {ℓ κ} : {A : Type ℓ} (P : A → Type κ) (xs ys : List A) → All P (xs ++ ys) → All P xs
All-prefix P [] ys h = tt
All-prefix P (x ∷ xs) ys (p, h) = (p, All-prefix P xs ys h)

-- A block with a negative length is emitted, or leaves its length behind.
module _ (codecs : Codecs) (hs : Fields) (k : Parser → Run) where
  abbrev pub IsClean : Run → Type 0
  IsClean r = (r.thrown ≡ false) × All IsSane r.emissions × (negative r.parser.body_len ≡ false)

  parse_event_shows :
      (body : Option Bytes)
      → (parse_event codecs (some hs) body).thrown ≡ false
      → All IsSane (parse_event codecs (some hs) body).emissions
      → negative (as_number (stated_length hs)) ≡ false
  unfolding parse_event
  parse_event_shows body = (event_of-Shows hs body codecs).shown

  continue_shows :
      (body : Option Bytes) (p : Parser)
      → IsClean (then_continue codecs (parse_event codecs (some hs) body) p k)
      → negative (as_number (stated_length hs)) ≡ false
  continue_shows body p (t, s, n) = elim (Bool-cases (parse_event codecs (some hs) body).thrown) [
    | inl e ↦ cc (rw e at t)
    | inr e ↦
        parse_event_shows body e
          (All-prefix IsSane (parse_event codecs (some hs) body).emissions _ s)
  ]

  pub framed_shows :
      (b : Bytes) (q : Parser)
      → q.buffer ≡ b
      → q.headers ≡ some hs
      → q.body_len ≡ as_number (stated_length hs)
      → negative q.body_len ≡ true
      → ¬ IsClean (if_buffered codecs (body_round codecs k) q)
  framed_shows [] q e h l n c = cc (n, empty_clean)
    where
      stopped : if_buffered codecs (body_round codecs k) q ≡ stop q
      stopped = ground arith

      empty_clean : negative q.body_len ≡ false
      empty_clean = (subst IsClean stopped c).2
  framed_shows (x ∷ b) q e h l n c =
      let shown : negative q.body_len ≡ false = rw l (continue_shows _ _ whole) in cc (n, shown)
    where
      whole : IsClean (
          then_continue codecs
            (parse_event codecs (some hs) (some (slice_to q.body_len q.buffer)))
            (record q { buffer = slice_from q.body_len q.buffer; body_len = num 0 })
            k)
      whole =
          subst IsClean
            (buffered
              ∙ body_round_whole codecs k q (never_short (length q.buffer) q.body_len n)
              ∙ ap
                  (λ m.
                    then_continue codecs
                      (parse_event codecs m (some (slice_to q.body_len q.buffer)))
                      (record q { buffer = slice_from q.body_len q.buffer; body_len = num 0 }) k)
                  h)
            c
        where
          buffered : if_buffered codecs (body_round codecs k) q ≡ body_round codecs k q
          buffered = ground arith
