-- ===== src/Tests.antt =====
-- Concrete runs of the modelled code, and the theorems at concrete inputs: here those on the frames
-- and events of the event socket.
mod Connections
mod Queues
mod Calls
mod Waiting
mod Menus
mod Steps
mod Flows
mod Rows
mod Chats
use next_call.Base.Assoc.{lookup, insert, assign, HasOwnKeys, first_of}
use next_call.Base.Index.{index_of}
use next_call.Base.{
  ℕ, zero, suc, ◌+◌, ◌-◌, ◌<◌, ◌≤◌, ◌≡◌, refl, Bool, true, false, Option, none, some, List, [], ◌∷◌,
  ◌++◌, Bytes, codes, text_eq, All, arith, length, inl, inr, keep, drop, take, if◌then◌else◌, ◌⊎◌,
}
use next_call.Esl.Value.{Value, text, num, neg, nan, parse_int}
use next_call.Esl.Event.{Event, Fields, get_header, new_event, str_map_to_obj, blank}
use next_call.Esl.Uri.{decode_uri_component, decode_uri_component_plain}
use next_call.Esl.Value.Decimal.{show_nat, parse_int-show_nat}
use next_call.Esl.Event.Headers.{get_header-new_event, lookup-str_map_to_obj}
use next_call.Esl.Parser.{
  parse_header_text, index_of_header_end, Codecs, Parser, Json, initial, on_data, emitted,
  parse_headers, headers_round,
}
use next_call.Esl.Parser.Rounds.{parse_headers_lem}
use next_call.Esl.Parser.Chunks.{on_data-append}
use next_call.Esl.Parser.Fields.{IsLine, block, stored_all, parse_header_text-block}

abbrev no_codecs : Codecs
no_codecs = record { json_parse = λ s. some Json.null; xml_body = λ s. some [] }

abbrev frame_start : Bytes
frame_start = codes "A: 1\n\nB"

abbrev frame_end : Bytes
frame_end = codes ": 2\n\n"

on_data-append_example :
    on_data no_codecs initial (frame_start ++ frame_end)
    ≡ emitted
        (on_data no_codecs initial frame_start).emissions
        (on_data no_codecs (on_data no_codecs initial frame_start).parser frame_end)
unfolding on_data codes text_eq next_call.Esl.Parser.parse_event new_event
on_data-append_example = on_data-append no_codecs initial frame_start frame_end refl (refl, tt) refl

parse_headers_lem_example :
    parse_headers no_codecs (record initial { buffer = frame_start })
    ≡ headers_round no_codecs (parse_headers no_codecs) (record initial { buffer = frame_start })
parse_headers_lem_example = parse_headers_lem no_codecs (record initial { buffer = frame_start })

abbrev hello : Fields
hello = (codes "Event-Name", text (codes "HEARTBEAT")) ∷ (codes "_body", text (codes "x")) ∷ []

first-IsLine : IsLine (codes "A") (codes "1")
unfolding codes text_eq
first-IsLine = record {
  no_colon = (refl, tt);
  kept = refl;
  plain = (refl, tt);
  key_line = (refl, tt);
  value_line = (refl, tt);
}

length-IsLine : IsLine (codes "Content-Length") (codes "12")
unfolding codes text_eq
length-IsLine = record {
  no_colon = (
    refl,
    (
      refl,
      (
        refl,
        (refl, (refl, (refl, (refl, (refl, (refl, (refl, (refl, (refl, (refl, (refl, tt))))))))))),
      ),
    ),
  );
  kept = refl;
  plain = (refl, (refl, tt));
  key_line = (
    refl,
    (
      refl,
      (
        refl,
        (refl, (refl, (refl, (refl, (refl, (refl, (refl, (refl, (refl, (refl, (refl, tt))))))))))),
      ),
    ),
  );
  value_line = (refl, (refl, tt));
}

abbrev second_line : List (Bytes × Bytes)
second_line = (codes "Content-Length", codes "12") ∷ []

parse_header_text-block_example :
    parse_header_text (block (codes "A") (codes "1") second_line)
    ≡ some (stored_all [] ((codes "A", codes "1") ∷ second_line))
parse_header_text-block_example =
    parse_header_text-block (codes "A") (codes "1") second_line first-IsLine (length-IsLine, tt)
