-- ===== src/Esl/Uri.antt =====
-- JavaScript's `decodeURIComponent`, on the UTF-8 bytes of its texts: escapes `%XX` become bytes,
-- and `none` stands for the `URIError` at a malformed escape or at escapes that are not UTF-8.
use next_call.Base.{
  ℕ, ◌+◌, ◌-◌, ◌*◌, ◌≡◌, refl, true, false, ◌&&◌, Option, none, some, [], ◌∷◌, ◌==◌, leb, ltb,
  if◌then◌else◌, Bytes, All, arith,
}

hex_digit : ℕ → Option ℕ
hex_digit c =
    if leb b'0' c && leb c b'9'
    then some (c - 48)
    else if leb b'A' c && leb c b'F'
    then some (c - 55)
    else if leb b'a' c && leb c b'f'
    then some (c - 87)
    else none

hex_byte : Option ℕ → Option ℕ → Option ℕ
hex_byte (some h) (some l) = some (h * 16 + l)
hex_byte _ _ = none

-- How many bytes of a sequence are still to come, and the range of the next one.
record Pending : Type 0 where
  count : ℕ
  lowest : ℕ
  highest : ℕ

abbrev at_start : Pending
at_start = record { count = 0; lowest = 0; highest = 0 }

abbrev wait_for : ℕ → ℕ → ℕ → Option Pending
wait_for n lo hi = some (record { count = n; lowest = lo; highest = hi })

-- The first byte of a sequence, with the sequences that are too long, surrogates or too large out.
lead : ℕ → Option Pending
lead b =
    if ltb b 128
    then some at_start
    else if leb 194 b && leb b 223
    then wait_for 1 128 191
    else if b == 224
    then wait_for 2 160 191
    else if b == 237
    then wait_for 2 128 159
    else if leb 225 b && leb b 239
    then wait_for 2 128 191
    else if b == 240
    then wait_for 3 144 191
    else if leb 241 b && leb b 243
    then wait_for 3 128 191
    else if b == 244
    then wait_for 3 128 143
    else none

-- The state after the escaped byte `b`.
after_escape : Pending → ℕ → Option Pending
after_escape p b =
    if p.count == 0
    then lead b
    else if leb p.lowest b && leb b p.highest
    then some (record { count = p.count - 1; lowest = 128; highest = 191 })
    else none

-- One more decoded byte in front of what the rest decodes to.
abbrev cons_opt : ℕ → Option Bytes → Option Bytes
cons_opt b none = none
cons_opt b (some s) = some (b ∷ s)

decode_from : Pending → Bytes → Option Bytes
decode_from p [] = if p.count == 0 then some [] else none
decode_from p (c ∷ []) = if c == b'%' then none else if p.count == 0 then some (c ∷ []) else none
decode_from p (c ∷ d ∷ []) = elim (c == b'%') [
  | true ↦ none
  | false ↦ if p.count == 0 then cons_opt c (decode_from at_start (d ∷ [])) else none
]
decode_from p (c ∷ d ∷ e ∷ s) = elim (c == b'%') [
  | true ↦ elim (hex_byte (hex_digit d) (hex_digit e)) [
    | none ↦ none
    | some b ↦ elim (after_escape p b) [ none ↦ none | some q ↦ cons_opt b (decode_from q s) ]
  ]
  | false ↦ if p.count == 0 then cons_opt c (decode_from at_start (d ∷ e ∷ s)) else none
]

unfoldable pub decode_uri_component : Bytes → Option Bytes
unfolding decode_from hex_digit hex_byte lead after_escape
decode_uri_component = decode_from at_start

abbrev pub IsPlain : ℕ → Type 0
IsPlain c = (c == b'%') ≡ false

decode_from_plain : (s : Bytes) → All IsPlain s → decode_from at_start s ≡ some s
unfolding decode_from
decode_from_plain [] h = refl
decode_from_plain (c ∷ []) h = ground arith
decode_from_plain (c ∷ d ∷ []) h = ground (arith, decode_from_plain (d ∷ []))
decode_from_plain (c ∷ d ∷ e ∷ s) h = ground (arith, decode_from_plain (d ∷ e ∷ s))

-- A text with no `%` is its own decoding.
pub decode_uri_component_plain : (s : Bytes) → All IsPlain s → decode_uri_component s ≡ some s
unfolding decode_uri_component
decode_uri_component_plain s h = decode_from_plain s h
