-- ===== src/Esl/Event/Headers.antt =====
-- Reading and writing the headers of an event.
use next_call.Base.Assoc.{lookup, insert, lookup-insert, lookup_cons, lookup_nil}
use next_call.Base.{
  ◌≡◌, refl, ◌∙◌, Option, none, some, [], ◌∷◌, if◌then◌else◌, Bytes, codes, text_eq, text_eq_iff,
  arith, Bool-cases, inl, inr,
}
use next_call.Esl.Value.{Value}
use next_call.Esl.Event.{
  Event, Fields, add_header, add_headers, new_event, get_header, str_map_to_obj, copy_fields,
}

-- No key stands twice, as in every JavaScript object.
abbrev pub IsObject : Fields → Type 0
IsObject [] = Unit
IsObject ((k, v) ∷ m) = (lookup k m ≡ none) × IsObject m

abbrev pub or_else : Option Value → Option Value → Option Value
or_else none d = d
or_else (some v) d = some v

or_else-none : (o : Option Value) → or_else o none ≡ o
or_else-none none = refl
or_else-none (some v) = refl

-- Writing the fields of an object over `old` leaves what each of them holds.
lookup-copy_fields :
    (m obj : Fields) (k : Bytes)
    → IsObject m
    → lookup k (copy_fields m obj) ≡ or_else (lookup k m) (lookup k obj)
unfolding copy_fields
lookup-copy_fields [] obj k h = rw lookup_nil
lookup-copy_fields ((j, v) ∷ m) obj k (fresh, h) = ground (
  arith,
  lookup-copy_fields m (insert j v obj) k h,
  lookup-insert j k v obj,
  lookup_cons k j v m,
  text_eq_iff j k,
)

-- If no header stands twice, the object of `_strMapToObj` holds under each key what the event's
-- header of that name holds.
pub lookup-str_map_to_obj :
    (e : Event) (k : Bytes) → IsObject e.headers → lookup k (str_map_to_obj e) ≡ get_header k e
unfolding str_map_to_obj get_header
lookup-str_map_to_obj e k h = lookup-copy_fields e.headers [] k h ∙ rw lookup_nil (or_else-none _)

pub get_header-add_header :
    (n k : Bytes) (v : Value) (e : Event)
    → get_header k (add_header n v e) ≡ (if text_eq n k then some v else get_header k e)
unfolding get_header add_header
get_header-add_header n k v e = lookup-insert n k v e.headers

get_header-add_headers :
    (m : Fields) (e : Event) (k : Bytes)
    → IsObject m
    → get_header k (add_headers m e) ≡ (
        if text_eq k (codes "_body") then get_header k e else or_else (lookup k m) (get_header k e))
unfolding add_headers
get_header-add_headers [] e k h = rw lookup_nil (ground arith)
get_header-add_headers ((j, v) ∷ m) e k (fresh, h) = elim (Bool-cases (text_eq j (codes "_body"))) [
  | inl skipped ↦ rw skipped (
      ground (
        arith,
        get_header-add_headers m e k h,
        lookup_cons k j v m,
        text_eq_iff j k,
        text_eq_iff j (codes "_body"),
        text_eq_iff k (codes "_body"),
      ))
  | inr written ↦ rw written (
      ground (
        arith,
        get_header-add_headers m (add_header j v e) k h,
        get_header-add_header j k v e,
        lookup_cons k j v m,
        text_eq_iff j k,
        text_eq_iff j (codes "_body"),
        text_eq_iff k (codes "_body"),
      ))
]

-- An event made of an object in which no key stands twice has the object's fields as its headers,
-- `_body` alone left out.
pub get_header-new_event :
    (m : Fields) (body : Option Value) (k : Bytes)
    → IsObject m
    → get_header k (new_event m body) ≡ (if text_eq k (codes "_body") then none else lookup k m)
unfolding new_event
get_header-new_event m body k h =
    get_header-add_headers m _ k h
    ∙ (unfold get_header in ground (arith, lookup_nil {V = Value} k, or_else-none (lookup k m)))
