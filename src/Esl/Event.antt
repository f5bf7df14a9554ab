-- ===== src/Esl/Event.antt =====
-- src/esl/NodeESL/Event.ts: an event with its headers and body, and its three serialisations.
-- A `Map` and a plain object are association lists with text keys (Base/Assoc).
pub mod Headers
use next_call.Base.Assoc.{lookup, insert, erase}
use next_call.Base.{
  ℕ, suc, ◌+◌, ◌-◌, Bool, true, false, ◌&&◌, Option, none, some, List, [], ◌∷◌, ◌++◌, ◌==◌,
  if◌then◌else◌, length, Bytes, String, codes, text_eq,
}
use next_call.Esl.Value.{Value, text, num, truthy, is_space, trim_start}
use next_call.Esl.Value.Decimal.{show}

abbrev pub Fields : Type 0
Fields = List (Bytes × Value)

-- `type` and `subclass` are `none` where they are `undefined`, `h_ptr` is `none` where it is `null`.
pub record Event : Type 0 where
  pub type : Option Value
  pub subclass : Option Value
  pub h_ptr : Option ℕ
  pub headers : Fields
  pub body : Value

abbrev pub blank : Event
blank = record { type = none; subclass = none; h_ptr = none; headers = []; body = text [] }

-- `addHeader`
unfoldable pub add_header : Bytes → Value → Event → Event
unfolding insert
add_header name value e = record e { headers = insert name value e.headers }

-- `if (subclass) this.addHeader('Event-Subclass', subclass)`
add_subclass : Bytes → Event → Event
unfolding add_header
add_subclass [] e = e
add_subclass (c ∷ s) e = add_header (codes "Event-Subclass") (text (c ∷ s)) e

-- The constructor at a type and a subclass, which is empty where it is left out.
unfoldable pub new_typed : Bytes → Bytes → Event
unfolding add_header add_subclass
new_typed type subclass = add_subclass subclass (
    add_header (codes "Event-Name") (text type)
      (record blank { type = some (text type); subclass = some (text subclass) }))

-- The constructor's loop over the keys of an object.
unfoldable pub add_headers : Fields → Event → Event
unfolding add_header
add_headers [] e = e
add_headers ((k, value) ∷ rest) e =
    add_headers rest (if text_eq k (codes "_body") then e else add_header k value e)

-- `a || b || ''` at values, with `none` for `null` and `undefined`
abbrev pub or_empty : Option Value → Value
or_empty none = text []
or_empty (some v) = if truthy v then v else text []

abbrev pub first_truthy : Option Value → Option Value → Value
first_truthy none v = or_empty v
first_truthy (some u) v = if truthy u then u else or_empty v

-- The constructor at an object of headers and a body.
unfoldable pub new_event : Fields → Option Value → Event
unfolding add_headers lookup truthy
new_event fields body = add_headers fields (record blank {
  type = lookup (codes "Event-Name") fields;
  subclass = lookup (codes "Event-Subclass") fields;
  body = first_truthy body (lookup (codes "_body") fields);
})

-- The constructor with no parameters.
abbrev pub new_empty : Event
new_empty = record blank { type = some (text []); subclass = some (text []) }

unfoldable pub get_header : Bytes → Event → Option Value
unfolding lookup
get_header name e = lookup name e.headers

abbrev pub set_priority : Value → Event → Event
set_priority priority = add_header (codes "priority") priority

unfoldable pub del_header : Bytes → Event → Event
unfolding erase
del_header name e = record e { headers = erase name e.headers }

-- `addBody`: JavaScript's `+=` on a text
unfoldable pub add_body : Bytes → Event → Event
unfolding show
add_body value e = record e { body = text (show e.body ++ value) }

-- What `firstHeader` and `nextHeader` return.
pub data HeaderName : Type 0 where
  key : Bytes → HeaderName
  null undefined : HeaderName

-- `this.headers.keys()[i]`: a `Map`'s `keys()` is an iterator, which has no element `[i]`.
keys_at : Fields → ℕ → HeaderName
keys_at headers i = undefined

unfoldable pub first_header : Event → Event × HeaderName
unfolding keys_at
first_header e = (record e { h_ptr = some 0 }, keys_at e.headers 0)

next_from : Option ℕ → Event → Event × HeaderName
unfolding keys_at
next_from none e = (e, null)
next_from (some i) e =
    if suc i == length e.headers
    then (record e { h_ptr = none }, null)
    else (record e { h_ptr = some (suc i) }, keys_at e.headers (suc i))

unfoldable pub next_header : Event → Event × HeaderName
unfolding next_from
next_header e = next_from e.h_ptr e

-- `_findHeaderIndex`: `this.headers.length` is undefined on a `Map`, so its loop makes no round.
unfoldable pub find_header_index : Bytes → Event → Option ℕ
find_header_index name e = none

with_name : Bytes → Option Value → Option (Bytes × Value)
with_name name none = none
with_name name (some v) = some (name, v)

-- `_findHeader`
unfoldable pub find_header : Bytes → Event → Option (Bytes × Value)
unfolding lookup with_name
find_header name e = with_name name (lookup name e.headers)

-- `_strMapToObj`
copy_fields : Fields → Fields → Fields
unfolding insert
copy_fields [] obj = obj
copy_fields ((k, v) ∷ m) obj = copy_fields m (insert k v obj)

unfoldable pub str_map_to_obj : Event → Fields
unfolding copy_fields
str_map_to_obj e = copy_fields e.headers []

-- `body.replace('\n', '%0A')`: the first line feed alone
unfoldable pub escape_newline : Bytes → Bytes
escape_newline [] = []
escape_newline (c ∷ s) = if c == b'\n' then b'%' ∷ b'0' ∷ b'A' ∷ s else c ∷ escape_newline s

trim_end : Bytes → Bytes
trim_end [] = []
trim_end (c ∷ s) =
    let rest = trim_end s in
    elim rest [ [] ↦ if is_space c then [] else c ∷ [] | x ∷ xs ↦ c ∷ x ∷ xs ]

-- `data.trim()`
unfoldable pub trim : Bytes → Bytes
unfolding trim_start trim_end
trim s = trim_end (trim_start s)

-- One `key: value` line for each header.
unfoldable pub plain_headers : Fields → Bytes
unfolding show
plain_headers [] = []
plain_headers ((k, v) ∷ m) = k ++ (b':' ∷ b' ' ∷ (show v ++ (b'\n' ∷ plain_headers m)))

xml_headers : Fields → Bytes
unfolding show codes
xml_headers [] = []
xml_headers ((k, v) ∷ m) =
    codes "    <"
    ++ (k ++ (b'>' ∷ (show v ++ (codes "</" ++ (k ++ (codes ">\n" ++ xml_headers m))))))

pub data Format : Type 0 where
  json plain xml other : Format

-- The format, `undefined` being falsy.
abbrev pub or_plain : Option Format → Format
or_plain none = plain
or_plain (some f) = f

-- `stringify` is `JSON.stringify(data, null, 2)`.
module _ (stringify : Fields → Bytes) where
  render : Format → Bytes → Event → Option Bytes
  unfolding str_map_to_obj insert plain_headers xml_headers escape_newline trim codes
  render json body e = some (
      stringify (elim body [
        | [] ↦ str_map_to_obj e
        | c ∷ s ↦ insert (codes "_body") (text (c ∷ s)) (str_map_to_obj e)
      ]))
  render plain body e = some (
      trim
        (plain_headers e.headers ++ elim body [ [] ↦ [] | c ∷ s ↦ b'\n' ∷ escape_newline (c ∷ s) ]))
  render xml body e = some (
      codes "<event>\n  <headers>\n"
      ++ (xml_headers e.headers
          ++ (codes "  </headers>\n"
              ++ (elim body [ [] ↦ [] | c ∷ s ↦ codes "  <body>" ++ ((c ∷ s) ++ codes "</body>\n") ]
                  ++ codes "</event>"))))
  render other body e = none

  serialize_body : Option Format → Value → Event → Option (Event × Option Bytes)
  unfolding add_header render
  serialize_body format (text body) e =
      let e' = add_header (codes "Content-Length") (num (length body)) e in
      some (e', render (or_plain format) body e')
  serialize_body format _ e = none

  -- The outer `none` is the `TypeError` of `Buffer.byteLength` at a body that is no text, the inner
  -- one the `undefined` of a format that the switch does not name.
  unfoldable pub serialize : Option Format → Event → Option (Event × Option Bytes)
  unfolding serialize_body
  serialize format e = serialize_body format e.body e
