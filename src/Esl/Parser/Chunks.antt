-- ===== src/Esl/Parser/Chunks.antt =====
-- How the stream is cut into `data` events does not matter: feeding two chunks one after the other
-- emits what feeding them as one emits, and leaves the parser in the same state.
use next_call.Base.Assoc.{lookup}
use next_call.Base.{
  ℕ, zero, suc, ◌+◌, ◌≤◌, ◌≡◌, refl, sym, ap, Bool, true, false, none, some, [], ◌∷◌, ◌++◌, length,
  drop, take, length-drop, length-append, take-append_le, drop-append_le, append_assoc, All, Bytes,
  Bool-cases, Option-cases, inl, inr, arith, ◌==◌, ◌&&◌, codes, le→ltb, ltb→le,
}
use native.Mathlib.Nat.{le_refl}
use next_call.Esl.Event.{Fields}
use next_call.Esl.Value.{
  Value, num, truthy_opt, text, neg, nan, slice_from, slice_to, shorter, above_zero,
}
use next_call.Esl.Parser.Lines.{index_of_header_end, parse_header_text}
use next_call.Esl.Parser.Framing.{
  Codecs, Parser, Run, Outcome, emitted, then_continue, if_buffered, body_round, headers_parsed,
  parse_headers, on_data, as_number,
}
use next_call.Esl.Parser.Rounds.{
  index_of_header_end-le, headers_round-none, headers_round-some, headers_parsed-none,
  headers_parsed_framed, headers_parsed_bare, body_round_short, body_round_whole, parse_headers_lem,
  length-slice_from, index_of_header_end_empty,
}
use next_call.Esl.Parser.Lengths.{
  negative, stated_length, IsSane, textual, parse_header_text_number, negative_length, framed_shows,
  All-suffix,
}

-- The parser with more data behind its buffer.
abbrev with_more : Bytes → Parser → Parser
with_more d p = record p { buffer = p.buffer ++ d }

index_of_header_end-append :
    (b d : Bytes) (i : ℕ) → index_of_header_end b ≡ some i → index_of_header_end (b ++ d) ≡ some i
unfolding index_of_header_end
index_of_header_end-append [] d i h = cc
index_of_header_end-append (c ∷ []) d i h = cc
index_of_header_end-append (c ∷ e ∷ s) d i h = elim (Bool-cases (c == b'\n' && e == b'\n')) [
  | inl t ↦ ground arith
  | inr t ↦ elim (Option-cases (index_of_header_end (e ∷ s))) [
    | inl n ↦ ground arith
    | inr (j, n) ↦ let r = index_of_header_end-append (e ∷ s) d j n in ground arith
  ]
]

short_of_zero : (v : Value) → above_zero v ≡ true → shorter 0 v ≡ true
unfolding above_zero shorter
short_of_zero (num n) h = h
short_of_zero (text t) h = cc h
short_of_zero (neg n) h = cc h
short_of_zero nan h = cc h

-- A whole body is cut off the same with more data behind it.
whole_with_more :
    (v : Value) (b d : Bytes)
    → above_zero v ≡ true
    → shorter (length b) v ≡ false
    → (shorter (length (b ++ d)) v ≡ false)
      × (slice_to v (b ++ d) ≡ slice_to v b)
      × (slice_from v (b ++ d) ≡ slice_from v b ++ d)
unfolding above_zero shorter slice_to slice_from
whole_with_more (num n) b d h e =
    let le : n ≤ length b = ltb→le (length b) n e in
    (
      le→ltb _ _ (omega (arith, length-append b d)),
      take-append_le n b d le,
      drop-append_le n b d le,
    )
whole_with_more (text t) b d h e = cc h
whole_with_more (neg n) b d h e = cc h
whole_with_more nan b d h e = cc h

-- What the run over a first chunk says of the run over both: if it did not throw, met no negative
-- length and is not left with one, then the second chunk goes on where it stopped.
module _ (codecs : Codecs) (d : Bytes) where
  abbrev Resumes : Run → Run → Type 0
  Resumes r rd =
      r.thrown ≡ false
      → All IsSane r.emissions
      → negative r.parser.body_len ≡ false
      → rd ≡ emitted r.emissions (on_data codecs r.parser d)

  Resumes-then_continue :
      (o : Outcome) (p q : Parser) (k : Parser → Run)
      → Resumes (k p) (k q)
      → Resumes (then_continue codecs o p k) (then_continue codecs o q k)
  Resumes-then_continue o p q k h = resumes_tests o.thrown refl
    where
      resumes_tests :
          (b : Bool)
          → o.thrown ≡ b
          → Resumes (then_continue codecs o p k) (then_continue codecs o q k)
      resumes_tests true e = rw e (λ t _ _. cc t)
      resumes_tests false e = rw e (λ t s n.
          rw (h t (All-suffix IsSane o.emissions (k p).emissions s) n) (
            ap
              (λ es. record {
                parser = (on_data codecs (k p).parser d).parser;
                emissions = es;
                thrown = (on_data codecs (k p).parser d).thrown;
              })
              (sym (append_assoc o.emissions _ _))))

  on_data_waiting :
      (p : Parser)
      → above_zero p.body_len ≡ true
      → on_data codecs p d ≡ body_round codecs (parse_headers codecs) (with_more d p)
  unfolding on_data
  on_data_waiting p h = rw (h, on_data)

  on_data_idle :
      (p : Parser)
      → above_zero p.body_len ≡ false
      → on_data codecs p d ≡ parse_headers codecs (with_more d p)
  unfolding on_data
  on_data_idle p h = rw (h, on_data)

  if_buffered_headers :
      (b : Bytes) (p : Parser)
      → p.buffer ≡ b
      → if_buffered codecs (parse_headers codecs) p ≡ parse_headers codecs p
  if_buffered_headers [] p e =
      rw
        (
          parse_headers_lem codecs p,
          headers_round-none codecs (parse_headers codecs) p
              (rw e (unfold index_of_header_end in refl)),
        )
        (ground arith)
  if_buffered_headers (c ∷ b) p e = ground arith

  if_buffered_body :
      (b : Bytes) (p : Parser)
      → p.buffer ≡ b
      → above_zero p.body_len ≡ true
      → if_buffered codecs (body_round codecs (parse_headers codecs)) p
        ≡ body_round codecs (parse_headers codecs) p
  if_buffered_body [] p e h =
      rw (body_round_short codecs (parse_headers codecs) p (rw e (short_of_zero p.body_len h)))
        (ground arith)
  if_buffered_body (c ∷ b) p e h = ground arith

  body-Resumes :
      (p : Parser)
      → above_zero p.body_len ≡ true
      → ((q : Parser)
          → length q.buffer ≤ length p.buffer
          → above_zero q.body_len ≡ false
          → Resumes (parse_headers codecs q) (parse_headers codecs (with_more d q)))
      → Resumes
          (body_round codecs (parse_headers codecs) p)
          (body_round codecs (parse_headers codecs) (with_more d p))
  body-Resumes p h ih = elim (Bool-cases (shorter (length p.buffer) p.body_len)) [
    | inl e ↦
        rw (body_round_short codecs (parse_headers codecs) p e) (λ _ _ _. sym (on_data_waiting p h))
    | inr e ↦
        let (long, to, from) = whole_with_more p.body_len p.buffer d h e in
        let k : Parser → Run = parse_headers codecs in
        rw (body_round_whole codecs k p e, body_round_whole codecs k (with_more d p) long, to, from)
          (Resumes-then_continue _ _ _ k (
            ih (record p { buffer = slice_from p.body_len p.buffer; body_len = num 0 })
              (length-slice_from p.body_len p.buffer) (unfold above_zero in refl)))
  ]

  -- A header block is complete, and the next round is on `q`.
  parsed-Resumes :
      (hs : Fields) (q : Parser)
      → q.headers ≡ some hs
      → textual (stated_length hs) ≡ false
      → above_zero q.body_len ≡ false
      → ((q' : Parser)
          → length q'.buffer ≤ length q.buffer
          → above_zero q'.body_len ≡ false
          → Resumes (parse_headers codecs q') (parse_headers codecs (with_more d q')))
      → Resumes
          (headers_parsed codecs (parse_headers codecs) (some hs) q)
          (headers_parsed codecs (parse_headers codecs) (some hs) (with_more d q))
  parsed-Resumes hs q e number idle ih =
      elim (Bool-cases (truthy_opt (lookup (codes "Content-Length") hs))) [
        | inl t ↦ elim (Bool-cases (above_zero (as_number (stated_length hs)))) [
          | inl pos ↦
              let q' : Parser = record q { body_len = as_number (stated_length hs) } in
              rw
                (
                  headers_parsed_framed codecs (parse_headers codecs) q hs t,
                  headers_parsed_framed codecs (parse_headers codecs) (with_more d q) hs t,
                  if_buffered_body _ q' refl pos,
                  if_buffered_body _ (with_more d q') refl pos,
                )
                (body-Resumes q' pos ih)
          | inr nonpos ↦ rw (headers_parsed_framed codecs (parse_headers codecs) q hs t) (λ th s n.
              absurd (
                framed_shows codecs hs (parse_headers codecs) _
                  (record q { body_len = as_number (stated_length hs) }) refl e refl
                  (negative_length (stated_length hs) t number nonpos) (th, s, n)))
        ]
        | inr t ↦
            let k : Parser → Run = parse_headers codecs in
            rw
              (
                headers_parsed_bare codecs k q hs t,
                headers_parsed_bare codecs k (with_more d q) hs t,
              )
              (Resumes-then_continue _ q (with_more d q) (if_buffered codecs k) (
                rw (if_buffered_headers _ q refl, if_buffered_headers _ (with_more d q) refl)
                  (ih q (omega arith) idle)))
      ]

  idle-Resumes :
      (p : Parser)
      → above_zero p.body_len ≡ false
      → index_of_header_end p.buffer ≡ none
      → Resumes (parse_headers codecs p) (parse_headers codecs (with_more d p))
  idle-Resumes p idle e =
      rw (parse_headers_lem codecs p, headers_round-none codecs (parse_headers codecs) p e)
        (λ _ _ _. sym (on_data_idle p idle))

  block-Resumes :
      (f : ℕ) (p : Parser) (i : ℕ)
      → length p.buffer ≤ suc f
      → above_zero p.body_len ≡ false
      → index_of_header_end p.buffer ≡ some i
      → ((q : Parser)
          → length q.buffer ≤ f
          → above_zero q.body_len ≡ false
          → Resumes (parse_headers codecs q) (parse_headers codecs (with_more d q)))
      → Resumes (parse_headers codecs p) (parse_headers codecs (with_more d p))
  block-Resumes f p i le idle e ih =
      let k : Parser → Run = parse_headers codecs in
      let room = index_of_header_end-le p.buffer i e in
      rw
        (
          parse_headers_lem codecs p,
          parse_headers_lem codecs (with_more d p),
          headers_round-some codecs k p i e,
          headers_round-some codecs k (with_more d p) i (index_of_header_end-append p.buffer d i e),
          take-append_le i p.buffer d (omega (arith, room)),
          drop-append_le (i + 2) p.buffer d room,
        )
        (elim (Option-cases (parse_header_text (take i p.buffer))) [
          | inl n ↦ rw (n, headers_parsed-none codecs k _) (λ t _ _. cc t)
          | inr (hs, n) ↦ rw n (
              parsed-Resumes hs (record p { buffer = drop (i + 2) p.buffer; headers = some hs })
                refl (parse_header_text_number (take i p.buffer) hs n) idle
                (λ q small. ih q (omega (arith, length-drop (i + 2) p.buffer))))
        ])

  -- The induction over the rounds of `_parseHeaders`.
  headers-Resumes :
      (f : ℕ) (p : Parser)
      → length p.buffer ≤ f
      → above_zero p.body_len ≡ false
      → Resumes (parse_headers codecs p) (parse_headers codecs (with_more d p))
  headers-Resumes zero p le idle = idle-Resumes p idle (index_of_header_end_empty p.buffer le)
  headers-Resumes (suc f) p le idle = elim (Option-cases (index_of_header_end p.buffer)) [
    | inl e ↦ idle-Resumes p idle e
    | inr (i, e) ↦ block-Resumes f p i le idle e (headers-Resumes f)
  ]

-- Feeding a chunk and then another is feeding both at once, if the first one ends without an
-- exception, the emissions of the first show no negative stated length, and none is left in the
-- parser.
pub on_data-append :
    (codecs : Codecs) (p : Parser) (d e : Bytes)
    → (on_data codecs p d).thrown ≡ false
    → All IsSane (on_data codecs p d).emissions
    → negative (on_data codecs p d).parser.body_len ≡ false
    → on_data codecs p (d ++ e)
      ≡ emitted (on_data codecs p d).emissions (on_data codecs (on_data codecs p d).parser e)
on_data-append codecs p d e = elim (Bool-cases (above_zero p.body_len)) [
  | inl waiting ↦
      rw
        (
          on_data_waiting codecs d p waiting,
          on_data_waiting codecs (d ++ e) p waiting,
          ← append_assoc p.buffer d e,
        )
        (body-Resumes codecs e (with_more d p) waiting
          (λ q _. headers-Resumes codecs e (length q.buffer) q (le_refl _)))
  | inr idle ↦
      rw
        (
          on_data_idle codecs d p idle,
          on_data_idle codecs (d ++ e) p idle,
          ← append_assoc p.buffer d e,
        )
        (headers-Resumes codecs e _ (with_more d p) (le_refl _) idle)
]
