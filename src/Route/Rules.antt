-- ===== src/Route/Rules.antt =====
-- The rule that a call is routed by.
use next_call.Route.Effects.{
  new_caller, new_caller_same, new_called, new_called_same, IsMode, matched-IsMode,
}
use next_call.Base.{
  ℕ, ◌&&◌, ◌||◌, not, ◌==◌, ◌≡◌, refl, ap, ◌∙◌, Bool, true, false, Option, some, List, [], ◌∷◌,
  Bytes, codes, text_eq, if◌then◌else◌, length, keep, Bool-cases, inl, inr, arith, All,
}
use next_call.Route.{
  RouterDoc, Routing, no_result, present, or_empty_text, start_differs, length_differs, drops_match,
  match_called, match_caller, match_line, Line, incoming, outgoing, local, unknown, line_of,
  replaced_caller, replaced_called, matched, passed_over, search_rules, by_default, get_route,
}

-- A number that is there starts as the pattern says, if there is a pattern.
unfoldable pub starts_right : (Bytes → Bool) → Bytes → Option Bytes → Bool
unfolding present
starts_right test pattern number =
    length pattern == 0 || (not (present number) || test (or_empty_text number))

-- A number that is there is as long as the rule says, if it says so.
unfoldable pub length_right : ℕ → Option Bytes → Bool
unfolding present
length_right len number = len == 0 || (not (present number) || length (or_empty_text number) == len)

module _ (test : Bytes → Bytes → Bool) (caller called : Option Bytes) where
  unfoldable pub called_right : RouterDoc → Bool
  unfolding starts_right length_right
  called_right doc =
      starts_right (test doc.called_num) doc.called_num called && length_right doc.called_len called

  unfoldable pub caller_right : RouterDoc → Bool
  unfolding starts_right length_right
  caller_right doc =
      starts_right (test doc.caller_id) doc.caller_id caller && length_right doc.caller_len caller

  unfoldable pub line_right : Line → RouterDoc → Bool
  unfolding called_right caller_right
  line_right incoming doc = caller_right doc && called_right doc
  line_right outgoing doc = called_right doc
  line_right local doc = called_right doc
  line_right unknown doc = false

  -- A rule accepts a call: it is for all callers and of a known line, the called number fits, and so
  -- does the caller's on an incoming line.
  unfoldable pub accepts : RouterDoc → Bool
  unfolding line_right line_of codes
  accepts doc = text_eq doc.caller_group (codes "all") && line_right (line_of doc.router_line) doc

-- The route of a call, for the rules that accept it: the first of them gives the numbers, the mode
-- and the target. If there is none, only the called number 100 has a target.
abbrev pub Answer : Bytes → Option Bytes → Option Bytes → List RouterDoc → Routing → Type 0
Answer line caller called [] t =
    (t.result.match ≡ false)
    × (t.caller ≡ caller)
    × (t.called ≡ called)
    × (t.result.process_mode
        ≡ (if text_eq (or_empty_text called) (codes "100") then codes "diallocal" else []))
Answer line caller called (doc ∷ docs) t =
    (t.result.match ≡ true)
    × (t.caller ≡ new_caller doc.replace_caller_id caller)
    × (t.called ≡ new_called doc.replace_called_append doc.replace_called_trim called)
    × IsMode line doc t.result t.called

start_same :
    (test : Bytes → Bool) (pattern : Bytes) (number : Option Bytes)
    → start_differs pattern number test ≡ not (starts_right test pattern number)
unfolding start_differs starts_right present
start_same test [] number = refl
start_same test (c ∷ s) number = ground arith

length_same :
    (len : ℕ) (number : Option Bytes) → length_differs len number ≡ not (length_right len number)
unfolding length_differs length_right
length_same len number = ground arith

module _ (test : Bytes → Bytes → Bool) (caller called : Option Bytes) (doc : RouterDoc) where
  called_same :
      (m : Bool)
      → match_called doc called (test doc.called_num) m ≡ (m && called_right test caller called doc)
  unfolding match_called drops_match called_right
  called_same m = ground (
    arith,
    start_same (test doc.called_num) doc.called_num called,
    length_same doc.called_len called,
  )

  caller_same :
      match_caller doc caller (test doc.caller_id) true ≡ caller_right test caller called doc
  unfolding match_caller drops_match caller_right
  caller_same = ground (
    arith,
    start_same (test doc.caller_id) doc.caller_id caller,
    length_same doc.caller_len caller,
  )

  line_same :
      (l : Line)
      → match_line l doc caller called (test doc.caller_id) (test doc.called_num)
        ≡ line_right test caller called l doc
  unfolding match_line line_right
  line_same incoming = rw (called_same, caller_same) refl
  line_same outgoing = rw called_same refl
  line_same local = rw called_same refl
  line_same unknown = refl

-- The two patterns of a rule for all callers are regular expressions; `test` is how they match.
abbrev pub Compiles : (Bytes → Option (Bytes → Bool)) → (Bytes → Bytes → Bool) → RouterDoc → Type 0
Compiles reg_exp test doc =
    text_eq doc.caller_group (codes "all") ≡ true
    → (reg_exp doc.caller_id ≡ some (test doc.caller_id))
      × (reg_exp doc.called_num ≡ some (test doc.called_num))

-- The answer that the loop leaves, before the default.
abbrev Searched : Bytes → Option Bytes → Option Bytes → List RouterDoc → Routing → Type 0
Searched line caller called [] t =
    (t.result.match ≡ false)
    × (t.caller ≡ caller)
    × (t.called ≡ called)
    × (t.result.process_mode ≡ [])
Searched line caller called (doc ∷ docs) t = Answer line caller called (doc ∷ docs) t

Searched-by_default :
    (line : Bytes) (caller called : Option Bytes) (docs : List RouterDoc) (t : Routing)
    → Searched line caller called docs t
    → Answer line caller called docs (by_default t)
unfolding by_default
Searched-by_default line caller called [] t (m, p, q, e) =
    elim (Bool-cases (text_eq (or_empty_text called) (codes "100"))) [
      | inl h ↦ rw (m, q, h) (refl, p, refl, refl)
      | inr h ↦ rw (m, q, h) (refl, p, refl, e)
    ]
Searched-by_default line caller called (doc ∷ docs) t (m, p, q, e) = rw m (refl, p, q, e)

module _ (reg_exp : Bytes → Option (Bytes → Bool)) (test : Bytes → Bytes → Bool) (line : Bytes)
    (caller called : Option Bytes) where
  search_one :
      (doc : RouterDoc) (docs : List RouterDoc) (s : Routing)
      → Compiles reg_exp test doc
      → text_eq doc.caller_group (codes "all") ≡ true
      → search_rules reg_exp line (doc ∷ docs) s ≡ (
          if match_line
            (line_of doc.router_line)
            doc
            s.caller
            s.called
            (test doc.caller_id)
            (test doc.called_num)
          then some (matched line doc s)
          else search_rules reg_exp line docs (passed_over doc s))
  unfolding search_rules
  search_one doc docs s c h = let (p, q) = c h in rw (h, p, q) refl

  search_other :
      (doc : RouterDoc) (docs : List RouterDoc) (s : Routing)
      → text_eq doc.caller_group (codes "all") ≡ false
      → search_rules reg_exp line (doc ∷ docs) s ≡ search_rules reg_exp line docs s
  unfolding search_rules
  search_other doc docs s h = rw h refl

  search_rules-Searched :
      (docs : List RouterDoc) (s : Routing)
      → All (Compiles reg_exp test) docs
      → s.caller ≡ caller
      → s.called ≡ called
      → s.result.match ≡ false
      → s.result.process_mode ≡ []
      → (t : Routing) × (search_rules reg_exp line docs s ≡ some t)
        × Searched line caller called (keep (accepts test caller called) docs) t
  unfolding search_rules matched passed_over accepts
  search_rules-Searched [] s cs p q m e = (s, refl, (m, p, q, e))
  search_rules-Searched (doc ∷ docs) s (c, cs) p q m e =
      let same : match_line (line_of doc.router_line) doc s.caller s.called (test doc.caller_id)
            (test doc.called_num)
          ≡ line_right test caller called (line_of doc.router_line) doc =
        rw (p, q) (line_same test caller called doc (line_of doc.router_line)) in
      elim (Bool-cases (text_eq doc.caller_group (codes "all"))) [
        | inl a ↦ elim (Bool-cases (line_right test caller called (line_of doc.router_line) doc)) [
          | inl l ↦ (
            matched line doc s,
            search_one doc docs s c a ∙ rw (same, l) refl,
            rw (accepts, a, l)
                (
                  refl,
                  ap (replaced_caller doc) p ∙ new_caller_same doc caller,
                  ap (replaced_called doc) q ∙ new_called_same doc called,
                  matched-IsMode line doc s,
                ),
          )
          | inr l ↦
              let (t, found, answer) =
                search_rules-Searched docs (passed_over doc s) cs p q refl e in
              (
                t,
                search_one doc docs s c a ∙ (rw (same, l) refl ∙ found),
                rw (accepts, a, l) answer,
              )
        ]
        | inr a ↦
            let (t, found, answer) = search_rules-Searched docs s cs p q m e in
            (t, search_other doc docs s a ∙ found, rw (accepts, a) answer)
      ]

-- If the patterns of the rules for all callers compile, a call is routed by the first rule that accepts
-- it, which gives the numbers, the mode and the target; if none does, the numbers stay, and the mode is
-- set for the called number 100 only.
pub get_route-Answer :
    (reg_exp : Bytes → Option (Bytes → Bool)) (test : Bytes → Bytes → Bool) (line : Bytes)
    (docs : List RouterDoc) (caller called : Option Bytes)
    → All (Compiles reg_exp test) docs
    → (t : Routing) × (get_route reg_exp line docs caller called ≡ some t)
      × Answer line caller called (keep (accepts test caller called) docs) t
unfolding get_route
get_route-Answer reg_exp test line docs caller called compiles =
    let (t, found, answer) =
      search_rules-Searched reg_exp test line caller called docs
        (record { caller = caller; called = called; result = no_result }) compiles refl refl refl
        refl in
    (by_default t, rw (found, get_route) refl, Searched-by_default line caller called _ t answer)
