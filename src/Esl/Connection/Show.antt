-- ===== src/Esl/Connection/Show.antt =====
-- src/esl/NodeESL/Connection.ts: `show` asks for a table of the switch, and its callback gets the answer
-- as an object.
use next_call.Esl.Connection.Commands.{bgapi}
use next_call.Esl.Connection.State.{Connection}
use next_call.Base.{
  onto_head, List, Bytes, Option, text_eq, ℕ, Bool, ◌∷◌, map, if◌then◌else◌, some, starts_with,
  ◌||◌, drop, codes, [], length, suc, none, ◌-◌, split, ◌≡◌, zero, ◌++◌, false, text_or, refl,
}
use next_call.Base.Assoc.{insert}
use next_call.Esl.Value.{Value, num, parse_int}

abbrev pub Row : Type 0
Row = List (Bytes × Bytes)

-- `doc` of xml2js: the attribute `row_count`, and `row`, which is no array where there is one row only.
pub record XmlDoc (J : Type 0) : Type 0 where
  pub row_count : Bytes
  pub row : Option J

-- `JSON.parse` and xml2js, on values `J`: `none` is a refusal. `rows_of` is the member `rows`, if there
-- is one, or `none` for a value that has no members; `elements` is for arrays.
pub record ShowCodecs (J : Type 0) : Type 0 where
  pub json_parse : Bytes → Option J
  pub rows_of : J → Option (Option (List J))
  pub xml_parse : Bytes → Option (XmlDoc J)
  pub elements : J → Option (List J)
  pub without_attributes : J → J

-- `parsed`: an object without members, or with rows, which for a table of texts stand beside their number
-- and for XML beside what was read as their number.
pub data Parsed (J : Type 0) : Type 0 where
  empty_object : Parsed J
  json_rows : List J → Parsed J
  xml_rows : Value → List J → Parsed J
  table_rows : ℕ → List Row → Parsed J

-- A call of the callback: with an error of the switch, an error of a parser, or what was parsed with the
-- text; or an exception.
pub data ShowCall (J : Type 0) : Type 0 where
  switch_error : Bytes → ShowCall J
  refused : ShowCall J
  shown : Parsed J → Bytes → ShowCall J
  thrown : ShowCall J

-- `s.indexOf(p) !== -1`
unfoldable pub has_text : Bytes → Bytes → Bool
has_text p [] = starts_with [] p
has_text p (c ∷ s) = starts_with (c ∷ s) p || has_text p s

-- `s.replace(p, '')`, on the first occurrence
unfoldable pub remove_first : Bytes → Bytes → Bytes
remove_first p [] = []
remove_first p (c ∷ s) =
    let rest = remove_first p s in
    if starts_with (c ∷ s) p then drop (length p) (c ∷ s) else c ∷ rest

-- The pieces between the separators, where `k` characters of a separator are left
unfoldable pub text_pieces : Bytes → ℕ → Bytes → List Bytes
text_pieces d k [] = [] ∷ []
text_pieces d (suc k) (c ∷ s) = text_pieces d k s
text_pieces d zero (c ∷ s) =
    let hit = starts_with (c ∷ s) d in
    let rest = text_pieces d (if hit then length d - 1 else 0) s in
    if hit then [] ∷ rest else onto_head c rest

-- `s.split(d)`; an empty separator cuts between all characters.
unfoldable pub split_text : Bytes → Bytes → List Bytes
split_text [] s = map (λ c. c ∷ []) s
split_text (x ∷ d) s = text_pieces (x ∷ d) 0 s

-- `o[cols[x]] = vals[x]`; beyond the columns the name is that of `undefined`.
unfoldable pub add_values : List Bytes → List Bytes → Row → Row
add_values cols [] o = o
add_values [] (v ∷ vals) o = add_values [] vals (insert (codes "undefined") v o)
add_values (c ∷ cols) (v ∷ vals) o = add_values cols vals (insert c v o)

-- The rows below the line of the columns
unfoldable pub parse_rows : Bytes → List Bytes → List Bytes → List Row
parse_rows d cols [] = []
parse_rows d cols (l ∷ ls) = add_values cols (split_text d l) [] ∷ parse_rows d cols ls

unfoldable pub parse_table : {J : Type 0} → Bytes → List Bytes → Parsed J
parse_table d [] = table_rows 0 []
parse_table d (l ∷ ls) = table_rows (length ls) (parse_rows d (split_text d l) ls)

-- The last case: `indexOf` is 0, which is falsy, where the format begins with the word.
unfoldable pub parse_delimited : {J : Type 0} → Bytes → Bytes → Parsed J
parse_delimited format data_text =
    if starts_with format (codes "delim")
    then empty_object
    else parse_table (remove_first (codes "delim ") format) (split b'\n' data_text)

module _ {J : Type 0} (codecs : ShowCodecs J) where
  open codecs use {json_parse, rows_of, xml_parse, elements, without_attributes}

  unfoldable pub show_json : Option J → Bytes → List (ShowCall J)
  show_json none s = refused ∷ []
  show_json (some j) s = elim (rows_of j) as (λ _. List (ShowCall J)) [
    | none ↦ thrown ∷ []
    | some none ↦ shown (json_rows []) s ∷ []
    | some (some l) ↦ shown (json_rows l) s ∷ []
  ]

  -- `doc.row` as one row or as an array; `none` is a TypeError.
  unfoldable pub many_rows : Option J → Option (List J)
  many_rows none = none
  many_rows (some j) = elements j

  unfoldable pub rows_by_count : Value → Option J → Option (List J)
  rows_by_count (num zero) row = some []
  rows_by_count (num (suc zero)) none = none
  rows_by_count (num (suc zero)) (some j) = some (without_attributes j ∷ [])
  rows_by_count (num (suc (suc n))) row = elim (many_rows row) as (λ _. Option (List J)) [
    | none ↦ none
    | some l ↦ some (map without_attributes l)
  ]
  rows_by_count _ row = some []

  -- After an error the callback is called again, since only the inner function returns.
  unfoldable pub show_xml : Option (XmlDoc J) → Bytes → List (ShowCall J)
  show_xml none s = refused ∷ shown empty_object s ∷ []
  show_xml (some doc) s =
      elim (rows_by_count (parse_int doc.row_count) doc.row) as (λ _. List (ShowCall J)) [
        | none ↦ thrown ∷ []
        | some l ↦ shown (xml_rows (parse_int doc.row_count) l) s ∷ []
      ]

  -- What happens with the answer to `show`
  unfoldable pub show_reply : Bytes → Bytes → List (ShowCall J)
  show_reply format s =
      if has_text (codes "-ERR") s
      then switch_error s ∷ []
      else if text_eq format (codes "json")
      then show_json (json_parse s) s
      else if text_eq format (codes "xml")
      then show_xml (xml_parse s) s
      else shown (parse_delimited format s) s ∷ []

-- `show`, whose listener is the number `listener`; a format that is not given is `json`.
unfoldable pub show : Bytes → Bytes → ℕ → Bytes → Connection → Connection
show item format listener fresh c =
    bgapi (codes "show " ++ (item ++ (codes " as " ++ text_or format (codes "json")))) [] []
      (some listener) fresh c

-- A format that begins with `delim` gets no rows: the callback is called once with an empty object,
-- unless the switch answers with an error.
show_reply_delim :
    {J : Type 0} (codecs : ShowCodecs J) (delim s : Bytes)
    → has_text (codes "-ERR") s ≡ false
    → show_reply codecs (codes "delim " ++ delim) s ≡ shown empty_object s ∷ []
unfolding show_reply parse_delimited text_eq starts_with codes
show_reply_delim codecs delim s h = rw h refl
