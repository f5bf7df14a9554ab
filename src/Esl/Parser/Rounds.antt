-- ===== src/Esl/Parser/Rounds.antt =====
-- `_parseHeaders` and `_parseBody` call one another until the buffer holds no whole frame. Each
-- round takes bytes off the buffer, so the fuel given is enough.
use next_call.Base.Assoc.{lookup}
use next_call.Base.{
  ℕ, zero, suc, ◌+◌, ◌≤◌, ◌<◌, ◌≡◌, refl, ◌∙◌, sym, true, false, Option, none, some, [], ◌∷◌,
  length, drop, length-drop, take, Bytes, Bool-cases, Option-cases, inl, inr, arith, ◌==◌, ◌&&◌,
  codes,
}
use next_call.Esl.Event.{Fields}
use next_call.Esl.Value.{Value, num, truthy_opt, text, neg, nan, slice_from, slice_to, shorter}
use next_call.Esl.Parser.Lines.{index_of_header_end, parse_header_text}
use next_call.Esl.Parser.Framing.{
  Codecs, Parser, Run, stop, throw, then_continue, if_buffered, as_number, parse_event, body_round,
  headers_parsed, headers_round, headers_loop, parse_headers,
}

pub index_of_header_end-le : (b : Bytes) (i : ℕ) → index_of_header_end b ≡ some i → i + 2 ≤ length b
unfolding index_of_header_end
index_of_header_end-le [] i h = cc
index_of_header_end-le (c ∷ []) i h = cc
index_of_header_end-le (c ∷ d ∷ s) i h = elim (Bool-cases (c == b'\n' && d == b'\n')) [
  | inl e ↦ ground arith
  | inr e ↦ elim (Option-cases (index_of_header_end (d ∷ s))) [
    | inl n ↦ ground arith
    | inr (j, n) ↦ let b = index_of_header_end-le (d ∷ s) j n in ground arith
  ]
]

pub length-slice_from : (v : Value) (b : Bytes) → length (slice_from v b) ≤ length b
unfolding slice_from
length-slice_from (num n) b = omega (arith, length-drop n b)
length-slice_from (neg n) b = rw length-drop (omega arith)
length-slice_from (text t) b = omega arith
length-slice_from nan b = omega arith

-- The branches of a round, each by its test.
module _ (codecs : Codecs) (k : Parser → Run) (p : Parser) where
  pub headers_round-none : index_of_header_end p.buffer ≡ none → headers_round codecs k p ≡ stop p
  unfolding headers_round
  headers_round-none e = rw (e, headers_round)

  pub headers_round-some :
      (i : ℕ)
      → index_of_header_end p.buffer ≡ some i
      → headers_round codecs k p
        ≡ headers_parsed codecs k (parse_header_text (take i p.buffer)) (record p {
          buffer = drop (i + 2) p.buffer;
          headers = parse_header_text (take i p.buffer);
        })
  unfolding headers_round
  headers_round-some i e = rw (e, headers_round)

  pub headers_parsed-none : headers_parsed codecs k none p ≡ throw p
  unfolding headers_parsed
  headers_parsed-none = refl

  pub headers_parsed_framed :
      (hs : Fields)
      → truthy_opt (lookup (codes "Content-Length") hs) ≡ true
      → headers_parsed codecs k (some hs) p
        ≡ if_buffered codecs
            (body_round codecs k)
            (record p { body_len = as_number (lookup (codes "Content-Length") hs) })
  unfolding headers_parsed
  headers_parsed_framed hs e = rw (e, headers_parsed)

  pub headers_parsed_bare :
      (hs : Fields)
      → truthy_opt (lookup (codes "Content-Length") hs) ≡ false
      → headers_parsed codecs k (some hs) p
        ≡ then_continue codecs (parse_event codecs (some hs) none) p (if_buffered codecs k)
  unfolding headers_parsed
  headers_parsed_bare hs e = rw (e, headers_parsed)

  pub body_round_short :
      shorter (length p.buffer) p.body_len ≡ true → body_round codecs k p ≡ stop p
  unfolding body_round
  body_round_short e = rw (e, body_round)

  pub body_round_whole :
      shorter (length p.buffer) p.body_len ≡ false
      → body_round codecs k p
        ≡ then_continue codecs
            (parse_event codecs p.headers (some (slice_to p.body_len p.buffer)))
            (record p { buffer = slice_from p.body_len p.buffer; body_len = num 0 })
            k
  unfolding body_round
  body_round_whole e = rw (e, body_round)

module _ (codecs : Codecs) (k k' : Parser → Run) where
  if_buffered_cong : (p : Parser) → k p ≡ k' p → if_buffered codecs k p ≡ if_buffered codecs k' p
  if_buffered_cong p h = ground arith

  body_round_cong :
      (p : Parser)
      → ((q : Parser) → length q.buffer ≤ length p.buffer → k q ≡ k' q)
      → body_round codecs k p ≡ body_round codecs k' p
  body_round_cong p h = elim (Bool-cases (shorter (length p.buffer) p.body_len)) [
    | inl e ↦ body_round_short codecs k p e ∙ sym (body_round_short codecs k' p e)
    | inr e ↦
        let q : Parser = record p { buffer = slice_from p.body_len p.buffer; body_len = num 0 } in
        rw (
          body_round_whole codecs k p e,
          body_round_whole codecs k' p e,
          h q (length-slice_from p.body_len p.buffer),
        )
  ]

module _ (codecs : Codecs) (k k' : Parser → Run) where
  headers_parsed_cong :
      (hs : Option Fields) (p : Parser)
      → ((q : Parser) → length q.buffer ≤ length p.buffer → k q ≡ k' q)
      → headers_parsed codecs k hs p ≡ headers_parsed codecs k' hs p
  headers_parsed_cong none p h =
      rw (headers_parsed-none codecs k p, headers_parsed-none codecs k' p)
  headers_parsed_cong (some hs) p h =
      elim (Bool-cases (truthy_opt (lookup (codes "Content-Length") hs))) [
        | inl t ↦
            rw (headers_parsed_framed codecs k p hs t, headers_parsed_framed codecs k' p hs t)
              (if_buffered_cong codecs (body_round codecs k) (body_round codecs k')
                (record p { body_len = as_number (lookup (codes "Content-Length") hs) })
                (body_round_cong codecs k k' _ h))
        | inr t ↦ rw (
          headers_parsed_bare codecs k p hs t,
          headers_parsed_bare codecs k' p hs t,
          if_buffered_cong codecs k k' p (h p (omega arith)),
        )
      ]

  headers_round_cong :
      (p : Parser)
      → ((q : Parser) → length q.buffer < length p.buffer → k q ≡ k' q)
      → headers_round codecs k p ≡ headers_round codecs k' p
  headers_round_cong p h = elim (Option-cases (index_of_header_end p.buffer)) [
    | inl e ↦ headers_round-none codecs k p e ∙ sym (headers_round-none codecs k' p e)
    | inr (i, e) ↦
        rw (headers_round-some codecs k p i e, headers_round-some codecs k' p i e)
          (headers_parsed_cong _ _ (λ q le.
            h q (
              omega
                (arith, le, length-drop (i + 2) p.buffer, index_of_header_end-le p.buffer i e))))
  ]

pub index_of_header_end_empty : (b : Bytes) → length b ≤ 0 → index_of_header_end b ≡ none
unfolding index_of_header_end
index_of_header_end_empty [] h = refl
index_of_header_end_empty (c ∷ b) h = absurd (omega arith)

-- With fuel for every byte, more fuel changes nothing.
headers_loop_fuel :
    (codecs : Codecs) (f g : ℕ) (p : Parser)
    → length p.buffer ≤ f
    → length p.buffer ≤ g
    → headers_loop codecs f p ≡ headers_loop codecs g p
unfolding headers_loop
headers_loop_fuel codecs zero zero p hf hg = refl
headers_loop_fuel codecs zero (suc g) p hf hg =
    sym
      (headers_round-none codecs (headers_loop codecs g) p (index_of_header_end_empty p.buffer hf))
headers_loop_fuel codecs (suc f) zero p hf hg =
    headers_round-none codecs (headers_loop codecs f) p (index_of_header_end_empty p.buffer hg)
headers_loop_fuel codecs (suc f) (suc g) p hf hg =
    headers_round_cong codecs (headers_loop codecs f) (headers_loop codecs g) p
      (λ q lt. headers_loop_fuel codecs f g q (omega arith) (omega arith))

-- `parse_headers` satisfies the recursive equation of `_parseHeaders`: no fuel is left in it.
pub parse_headers_lem :
    (codecs : Codecs) (p : Parser)
    → parse_headers codecs p ≡ headers_round codecs (parse_headers codecs) p
parse_headers_lem codecs p =
    parse_headers_suc p
    ∙ headers_round_cong codecs (headers_loop codecs (length p.buffer)) (parse_headers codecs) p
        (λ q lt.
          unfold parse_headers in
          headers_loop_fuel codecs (length p.buffer) (length q.buffer) q (omega arith)
            (omega arith))
  where
    parse_headers_suc :
        (p : Parser)
        → parse_headers codecs p ≡ headers_round codecs (headers_loop codecs (length p.buffer)) p
    parse_headers_suc p =
        unfold parse_headers headers_loop in
        headers_loop_fuel codecs (length p.buffer) (suc (length p.buffer)) p (omega arith)
          (omega arith)
