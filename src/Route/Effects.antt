-- ===== src/Route/Effects.antt =====
-- What a rule that matches gives: the numbers, the mode and the target, said without the code.
-- The modes that a rule keeps; any other is a call inside.
use next_call.Route.{
  prefixed, is_dial_mode, replaced_caller, replaced_called, local_defined, matched, RouterDoc,
  trimmed, line_of, mode_of, RouteResult, defined_of, Routing,
}
use next_call.Base.{
  List, Bytes, codes, ◌∷◌, Option, ℕ, text_eq, [], some, if◌then◌else◌, ◌≡◌, ◌++◌, ◌&&◌, Elem,
  length, true, text_or, Bool-cases, none, drop, ◌⊎◌, ◌==◌, ◌↔◌, inl, refl, arith, here, subst, inr,
  sym, text_eq_iff, there,
}

abbrev pub dial_modes : List Bytes
dial_modes = codes "dialout" ∷ codes "dialpbxlocal" ∷ codes "dialoutNewRock" ∷ []

-- A number that the rule does not replace stays.
abbrev pub new_caller : Bytes → Option Bytes → Option Bytes
new_caller [] caller = caller
new_caller (c ∷ s) caller = some (c ∷ s)

-- The called number less its first characters, behind a prefix; where there is no number, the prefix, if
-- there is one, stands before the word that JavaScript writes.
abbrev pub new_called : Bytes → ℕ → Option Bytes → Option Bytes
new_called prefix trim (some number) = some (prefix ++ drop trim number)
new_called [] trim none = none
new_called (c ∷ s) trim none = some ((c ∷ s) ++ codes "undefined")

-- Where a call inside goes: to its number on a local line, to the rule's target or 200 on an incoming
-- one, and to the rule's target on the others.
abbrev pub target_inside : Bytes → Bytes → Option Bytes → Option Bytes
target_inside line target called =
    if text_eq line (codes "本地")
    then called
    else if text_eq line (codes "呼入") && text_eq target []
    then some (codes "200")
    else some target

-- The mode and the target that a rule gives
abbrev pub IsMode : Bytes → RouterDoc → RouteResult → Option Bytes → Type 0
IsMode line doc r called =
    (Elem doc.process_mode dial_modes
      × (r.process_mode ≡ doc.process_mode)
      × (r.process_defined ≡ some doc.processed_fined))
    ⊎ ((Elem doc.process_mode dial_modes → ⊥)
        × (r.process_mode ≡ codes "diallocal")
        × (r.process_defined ≡ target_inside line doc.processed_fined called))

new_caller_cases :
    (id : Bytes) (caller : Option Bytes)
    → (if length id == 0 then caller else some id) ≡ new_caller id caller
new_caller_cases [] caller = refl
new_caller_cases (c ∷ s) caller = ground arith

new_called_cases :
    (prefix : Bytes) (trim : ℕ) (called : Option Bytes)
    → prefixed prefix (trimmed trim called) ≡ new_called prefix trim called
unfolding prefixed trimmed
new_called_cases [] trim none = refl
new_called_cases [] trim (some s) = refl
new_called_cases (c ∷ p) trim none = refl
new_called_cases (c ∷ p) trim (some s) = refl

is_dial_mode_iff : (m : Bytes) → (is_dial_mode m ≡ true) ↔ Elem m dial_modes
unfolding is_dial_mode text_eq codes
is_dial_mode_iff m = (
  λ h. elim (Bool-cases (text_eq m (codes "dialout"))) [
    | inl e ↦ here (sym ((text_eq_iff _ _).0 e))
    | inr e ↦ elim (Bool-cases (text_eq m (codes "dialpbxlocal"))) [
      | inl f ↦ there (here (sym ((text_eq_iff _ _).0 f)))
      | inr f ↦ there (there (here (sym ((text_eq_iff _ _).0 (ground (arith, h, e, f))))))
    ]
  ],
  λ h. elim h [
    | here e ↦ subst (λ x. is_dial_mode x ≡ true) e refl
    | there (here e) ↦ subst (λ x. is_dial_mode x ≡ true) e refl
    | there (there (here e)) ↦ subst (λ x. is_dial_mode x ≡ true) e refl
    | there (there (there k)) ↦ elim k [ ]
  ],
)

pub new_caller_same :
    (doc : RouterDoc) (caller : Option Bytes)
    → replaced_caller doc caller ≡ new_caller doc.replace_caller_id caller
unfolding replaced_caller
new_caller_same doc caller = new_caller_cases doc.replace_caller_id caller

pub new_called_same :
    (doc : RouterDoc) (called : Option Bytes)
    → replaced_called doc called
      ≡ new_called doc.replace_called_append doc.replace_called_trim called
unfolding replaced_called
new_called_same doc called =
    new_called_cases doc.replace_called_append doc.replace_called_trim called

target_incoming :
    (target : Bytes) (called : Option Bytes)
    → some (text_or target (codes "200")) ≡ target_inside (codes "呼入") target called
unfolding codes text_eq
target_incoming [] called = refl
target_incoming (c ∷ s) called = refl

inside_same :
    (line : Bytes) (doc : RouterDoc) (called : Option Bytes)
    → local_defined (line_of line) doc called ≡ target_inside line doc.processed_fined called
unfolding local_defined line_of text_eq
inside_same line doc called = elim (Bool-cases (text_eq line (codes "呼入"))) [
  | inl e ↦
      subst (λ l. local_defined (line_of l) doc called ≡ target_inside l doc.processed_fined called)
        (sym ((text_eq_iff line (codes "呼入")).0 e)) (target_incoming doc.processed_fined called)
  | inr e ↦ elim (Bool-cases (text_eq line (codes "本地"))) [
    | inl f ↦
        subst
          (λ l. local_defined (line_of l) doc called ≡ target_inside l doc.processed_fined called)
          (sym ((text_eq_iff line (codes "本地")).0 f)) refl
    | inr f ↦ elim (Bool-cases (text_eq line (codes "呼出"))) [
      | inl g ↦ rw (e, f, g) refl
      | inr g ↦ rw (e, f, g) refl
    ]
  ]
]

pub matched-IsMode :
    (line : Bytes) (doc : RouterDoc) (s : Routing)
    → IsMode line doc (matched line doc s).result (matched line doc s).called
unfolding matched mode_of defined_of local_defined line_of
matched-IsMode line doc s = elim (Bool-cases (is_dial_mode doc.process_mode)) [
  | inl e ↦ inl ((is_dial_mode_iff doc.process_mode).0 e, rw e refl, rw e refl)
  | inr e ↦ inr (
    λ m. let k = (is_dial_mode_iff doc.process_mode).1 m in ground (arith, e, k),
    rw e refl,
    rw e (inside_same line doc (replaced_called doc s.called)),
  )
]
