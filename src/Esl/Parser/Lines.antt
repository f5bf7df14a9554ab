-- ===== src/Esl/Parser/Lines.antt =====
-- `_parseHeaderText` and `_parsePlainBody`: the lines of a header block. The headers are a list in the
-- order of insertion, as an object's keys are but for whole numbers and `__proto__`, which are no headers.
use next_call.Base.Assoc.{lookup, insert}
use next_call.Base.{
  ℕ, suc, ◌+◌, ◌-◌, true, false, ◌&&◌, ◌||◌, Option, none, some, List, [], ◌∷◌, ◌++◌, ◌==◌,
  if◌then◌else◌, leb, length, take, drop, Bytes, codes, text_eq,
}
use next_call.Esl.Uri.{decode_uri_component}
use next_call.Esl.Value.Decimal.{show}
use next_call.Esl.Value.{Value, text, num, neg, parse_int, truthy_opt}
use next_call.Esl.Event.{Fields}

abbrev pub cons_head : ℕ → List Bytes → List Bytes
cons_head c [] = (c ∷ []) ∷ []
cons_head c (p ∷ ps) = (c ∷ p) ∷ ps

-- `txt.split('\n')`
unfoldable pub split_lines : Bytes → List Bytes
split_lines [] = [] ∷ []
split_lines (c ∷ s) = let rest = split_lines s in if c == b'\n' then [] ∷ rest else cons_head c rest

-- `line.split(': ')`
unfoldable pub split_colon : Bytes → List Bytes
split_colon [] = [] ∷ []
split_colon (c ∷ []) = (c ∷ []) ∷ []
split_colon (c ∷ d ∷ s) = elim (c == b':' && d == b' ') [
  | true ↦ [] ∷ split_colon s
  | false ↦ cons_head c (split_colon (d ∷ s))
]

-- `data.join(': ')`
unfoldable pub join_colon : List Bytes → Bytes
join_colon [] = []
join_colon (p ∷ []) = p
join_colon (p ∷ q ∷ ps) = p ++ (b':' ∷ b' ' ∷ join_colon (q ∷ ps))

-- A `URIError` is caught, and leaves the value empty.
decoded : Option Bytes → Bytes
decoded none = []
decoded (some v) = v

-- The value of a line whose key is `key` and whose other pieces are `pieces`.
unfoldable pub line_value : Bytes → List Bytes → Bytes
unfolding decoded decode_uri_component join_colon
line_value key pieces =
    if text_eq key (codes "variable_sip_invite_record_route")
      || text_eq key (codes "variable_sip_recover_via")
    then []
    else decoded (decode_uri_component (join_colon pieces))

-- The callback of `reduce`, on the pieces of one line. `split` returns at least one piece.
unfoldable pub add_pieces : Fields → List Bytes → Fields
unfolding line_value insert parse_int
add_pieces headers [] = headers
add_pieces headers (key ∷ pieces) =
    let value = line_value key pieces in
    insert key (if text_eq key (codes "Content-Length") then parse_int value else text value)
      headers

unfoldable pub add_line : Fields → Bytes → Fields
unfolding add_pieces split_colon
add_line headers line = add_pieces headers (split_colon line)

unfoldable pub add_lines : Fields → List Bytes → Fields
unfolding add_line
add_lines headers [] = headers
add_lines headers (line ∷ lines) = add_lines (add_line headers line) lines

-- `none` is the `undefined` that an empty text gives.
unfoldable pub parse_header_text : Bytes → Option Fields
unfolding add_lines split_lines
parse_header_text [] = none
parse_header_text (c ∷ txt) = some (add_lines [] (split_lines (c ∷ txt)))

-- The index of the first of two line feeds, `none` for -1. In a buffer of fewer than two bytes the
-- loop makes no round.
unfoldable pub index_of_header_end : Bytes → Option ℕ
index_of_header_end [] = none
index_of_header_end (c ∷ []) = none
index_of_header_end (c ∷ d ∷ s) = elim (c == b'\n' && d == b'\n') [
  | true ↦ some 0
  | false ↦ elim (index_of_header_end (d ∷ s)) [ none ↦ none | some i ↦ some (suc i) ]
]

-- `b.slice(start, start + len)`, where a negative end counts from the end of the buffer.
slice_length : ℕ → Value → Bytes → Bytes
slice_length start (num n) b = take n (drop start b)
slice_length start (neg n) b =
    if leb (suc n) start then [] else take (length b - (suc n - start) - start) (drop start b)
slice_length start _ b = []

with_body : ℕ → Bytes → Fields → Fields
unfolding slice_length lookup insert show parse_int
with_body header_end txt headers = elim (lookup (codes "Content-Length") headers) [
  | none ↦ headers
  | some v ↦
      if truthy_opt (some v)
      then insert (codes "_body") (text (slice_length (header_end + 2) (parse_int (show v)) txt))
          headers
      else headers
]

-- `_parsePlainBody`. Without two line feeds the header text is empty, and reading a field of the
-- `undefined` headers throws: `none`.
unfoldable pub parse_plain_body : Bytes → Option Fields
unfolding with_body index_of_header_end parse_header_text
parse_plain_body txt = elim (index_of_header_end txt) [
  | none ↦ none
  | some i ↦ elim (parse_header_text (take i txt)) [
    | none ↦ none
    | some headers ↦ some (with_body i txt headers)
  ]
]
