-- ===== src/Esl/Parser/Fields.antt =====
-- The header text of plain `key: value` lines.
use next_call.Base.Assoc.{insert}
use next_call.Base.{
  ℕ, ◌≡◌, refl, ◌∙◌, ap, sym, true, false, ◌&&◌, ◌||◌, some, List, [], ◌∷◌, ◌++◌, ◌==◌, All, Bytes,
  codes, text_eq, if◌then◌else◌, All-append, ◌⊎◌, Bool-cases, inl, inr, arith,
}
use next_call.Esl.Uri.{decode_uri_component_plain, IsPlain}
use next_call.Esl.Value.{Value, text, parse_int}
use next_call.Esl.Event.{Fields}
use next_call.Esl.Parser.Lines.{
  cons_head, split_lines, split_colon, join_colon, line_value, add_pieces, add_line, add_lines,
  parse_header_text,
}

join-cons_head :
    (c : ℕ) (p : Bytes) (ps : List Bytes)
    → join_colon (cons_head c (p ∷ ps)) ≡ c ∷ join_colon (p ∷ ps)
unfolding join_colon
join-cons_head c p [] = refl
join-cons_head c p (q ∷ ps) = refl

split_here :
    (c d : ℕ) (s : Bytes)
    → (c == b':' && d == b' ') ≡ true
    → split_colon (c ∷ d ∷ s) ≡ [] ∷ split_colon s
unfolding split_colon
split_here c d s h = rw (split_colon, h) refl

split_on :
    (c d : ℕ) (s : Bytes)
    → (c == b':' && d == b' ') ≡ false
    → split_colon (c ∷ d ∷ s) ≡ cons_head c (split_colon (d ∷ s))
unfolding split_colon
split_on c d s h = rw (split_colon, h) refl

-- `split` returns at least one piece.
pieces : (s : Bytes) → (p : Bytes) × (ps : List Bytes) × (split_colon s ≡ p ∷ ps)
unfolding split_colon
pieces [] = ([], [], refl)
pieces (c ∷ []) = (c ∷ [], [], refl)
pieces (c ∷ d ∷ s) = elim (Bool-cases (c == b':' && d == b' ')) [
  | inl h ↦ ([], split_colon s, split_here c d s h)
  | inr h ↦ let (p, ps, e) = pieces (d ∷ s) in (c ∷ p, ps, split_on c d s h ∙ ap (cons_head c) e)
]

colon_pair :
    (c d : ℕ) (s t : Bytes) → (c == b':' && d == b' ') ≡ true → s ≡ t → b':' ∷ b' ' ∷ s ≡ c ∷ d ∷ t
colon_pair c d s t h e =
    let first : b':' ≡ c = ground arith in
    let second : b' ' ≡ d = ground arith in rw (← first, ← second, e) refl

join-split_colon : (s : Bytes) → join_colon (split_colon s) ≡ s
unfolding split_colon join_colon
join-split_colon [] = refl
join-split_colon (c ∷ []) = refl
join-split_colon (c ∷ d ∷ s) = elim (Bool-cases (c == b':' && d == b' ')) [
  | inl h ↦
      let (p, ps, e) = pieces s in
      ap join_colon (split_here c d s h ∙ ap (λ l. [] ∷ l) e)
      ∙ colon_pair c d _ s h (ap join_colon (sym e) ∙ join-split_colon s)
  | inr h ↦
      let (p, ps, e) = pieces (d ∷ s) in
      ap join_colon (split_on c d s h ∙ ap (cons_head c) e)
      ∙ (join-cons_head c p ps ∙ ap (◌∷◌ c) (ap join_colon (sym e) ∙ join-split_colon (d ∷ s)))
]

-- The key of a line ends at the first `: `.
split_colon-line :
    (k v : Bytes)
    → All (λ c. (c == b':') ≡ false) k
    → split_colon (k ++ b':' ∷ b' ' ∷ v) ≡ k ∷ split_colon v
split_colon-line [] v h = split_here b':' b' ' v refl
split_colon-line (c ∷ []) v (h, t) =
    split_on c b':' (b' ' ∷ v) (ground arith) ∙ ap (cons_head c) (split_here b':' b' ' v refl)
split_colon-line (c ∷ d ∷ k) v (h, t) =
    split_on c d (k ++ b':' ∷ b' ' ∷ v) (ground arith)
    ∙ ap (cons_head c) (split_colon-line (d ∷ k) v t)

-- What a line's value is stored as.
abbrev pub stored : Bytes → Bytes → Value
stored k v = if text_eq k (codes "Content-Length") then parse_int v else text v

-- A key with no colon that is not one of the two that are skipped, and a value with no `%`; neither
-- has a line feed.
pub record IsLine (k v : Bytes) : Type 0 where
  pub no_colon : All (λ c. (c == b':') ≡ false) k
  pub kept :
      (text_eq k (codes "variable_sip_invite_record_route")
        || text_eq k (codes "variable_sip_recover_via"))
      ≡ false
  pub plain : All IsPlain v
  pub key_line : All (λ c. (c == b'\n') ≡ false) k
  pub value_line : All (λ c. (c == b'\n') ≡ false) v

abbrev pub line_text : Bytes → Bytes → Bytes
line_text k v = k ++ b':' ∷ b' ' ∷ v

add_line-line_text :
    (headers : Fields) (k v : Bytes)
    → IsLine k v
    → add_line headers (line_text k v) ≡ insert k (stored k v) headers
unfolding add_line add_pieces line_value
add_line-line_text headers k v h =
    ap (add_pieces headers) (split_colon-line k v h.no_colon)
    ∙ rw (h.kept, join-split_colon v, decode_uri_component_plain v h.plain) refl

split_lines-last : (l : Bytes) → All (λ c. (c == b'\n') ≡ false) l → split_lines l ≡ l ∷ []
unfolding split_lines
split_lines-last [] h = refl
split_lines-last (c ∷ l) (h, t) = rw (h, split_lines-last l t) refl

split_lines-more :
    (l s : Bytes)
    → All (λ c. (c == b'\n') ≡ false) l
    → split_lines (l ++ b'\n' ∷ s) ≡ l ∷ split_lines s
unfolding split_lines
split_lines-more [] s h = refl
split_lines-more (c ∷ l) s (h, t) = rw (h, split_lines-more l s t) refl

abbrev pub AllLines : List (Bytes × Bytes) → Type 0
AllLines [] = Unit
AllLines ((k, v) ∷ m) = IsLine k v × AllLines m

-- The lines of a header block, with a line feed between two of them.
abbrev pub block : Bytes → Bytes → List (Bytes × Bytes) → Bytes
block k v [] = line_text k v
block k v ((j, w) ∷ m) = line_text k v ++ b'\n' ∷ block j w m

abbrev pub stored_all : Fields → List (Bytes × Bytes) → Fields
stored_all headers [] = headers
stored_all headers ((k, v) ∷ m) = stored_all (insert k (stored k v) headers) m

line-one : (k v : Bytes) → IsLine k v → All (λ c. (c == b'\n') ≡ false) (line_text k v)
line-one k v h = All-append _ k (b':' ∷ b' ' ∷ v) h.key_line (refl, (refl, h.value_line))

add_lines-block :
    (headers : Fields) (k v : Bytes) (m : List (Bytes × Bytes))
    → IsLine k v
    → AllLines m
    → add_lines headers (split_lines (block k v m)) ≡ stored_all headers ((k, v) ∷ m)
unfolding add_lines
add_lines-block headers k v [] h t =
    ap (add_lines headers) (split_lines-last (line_text k v) (line-one k v h))
    ∙ add_line-line_text headers k v h
add_lines-block headers k v ((j, w) ∷ m) h (g, t) =
    ap (add_lines headers) (split_lines-more (line_text k v) (block j w m) (line-one k v h))
    ∙ (ap (λ hs. add_lines hs (split_lines (block j w m))) (add_line-line_text headers k v h)
        ∙ add_lines-block (insert k (stored k v) headers) j w m g t)

parse_header_text-some :
    (s : Bytes) → (s ≡ []) ⊎ (parse_header_text s ≡ some (add_lines [] (split_lines s)))
unfolding parse_header_text
parse_header_text-some [] = inl refl
parse_header_text-some (c ∷ s) = inr refl

line_some : (k v : Bytes) → line_text k v ≡ [] → ⊥
line_some [] v e = ground arith
line_some (c ∷ k) v e = ground arith

block_some : (k v : Bytes) (m : List (Bytes × Bytes)) → block k v m ≡ [] → ⊥
block_some k v [] e = line_some k v e
block_some [] v ((j, w) ∷ m) e = ground arith
block_some (c ∷ k) v ((j, w) ∷ m) e = ground arith

-- If no key of a header block has a colon or is one of the two that are skipped, no value has a
-- `%`, and neither has a line feed, then the block's text is read as its keys with their values,
-- in their order, a later value of a key in the place of an earlier one, the value of
-- `Content-Length` as a number.
pub parse_header_text-block :
    (k v : Bytes) (m : List (Bytes × Bytes))
    → IsLine k v
    → AllLines m
    → parse_header_text (block k v m) ≡ some (stored_all [] ((k, v) ∷ m))
parse_header_text-block k v m h t = elim (parse_header_text-some (block k v m)) [
  | inl e ↦ absurd (block_some k v m e)
  | inr e ↦ e ∙ ap some (add_lines-block [] k v m h t)
]
