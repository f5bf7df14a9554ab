-- ===== src/Pbx/Read/Keys.antt =====
-- src/esl/free-switch-pbx.service.ts: the keys that `uuidRead` takes.
use next_call.Base.{
  refl, ap, subst, sym, ◌∙◌, ℕ, zero, suc, ◌-◌, ◌≤◌, ◌<◌, ◌≡◌, ◌≢◌, inl, inr, refl, ◌==◌, ◌++◌, ltb,
  ◌&&◌, Bool, true, false, [], ◌∷◌, map, Bytes, codes, text_eq, if◌then◌else◌, length, take, arith,
  Bool-cases, append-nil, append_assoc,
}
use next_call.Pbx.Read.Laws.{length_snoc}
use next_call.Pbx.Read.{
  Stage, broadcasting, playing, pausing, checking, finished, ReadState, ReadOptions, broadcast_done,
  dtmf, start, take_key, key_event, begin_play, step, run,
}

-- The keys before the terminator
unfoldable pub before : Bytes → Bytes → Bytes
before t [] = []
before t (d ∷ r) = let b = before t r in if text_eq (d ∷ []) t then [] else d ∷ b

-- Keys of a telephone, which are below the letters of the two words
unfoldable pub are_keys : Bytes → Bool
are_keys [] = true
are_keys (d ∷ r) = ltb d 100 && are_keys r

keys_not_timeout : (a : Bytes) → are_keys a ≡ true → text_eq a (codes "timeout") ≡ false
unfolding are_keys text_eq codes
keys_not_timeout [] h = refl
keys_not_timeout (d ∷ r) h = ground arith

are_keys_snoc :
    (a : Bytes) (d : ℕ) → are_keys a ≡ true → ltb d 100 ≡ true → are_keys (a ++ (d ∷ [])) ≡ true
unfolding are_keys
are_keys_snoc [] d h k = ground arith
are_keys_snoc (x ∷ a) d h k = ground (arith, are_keys_snoc a d)

key_event_open :
    (o : ReadOptions) (g : Stage) (s : ReadState) (d : ℕ)
    → g ≢ finished
    → key_event o g s d ≡ take_key o s d
unfolding key_event
key_event_open o finished s d h = absurd (h refl)
key_event_open o broadcasting s d h = refl
key_event_open o playing s d h = refl
key_event_open o pausing s d h = refl
key_event_open o checking s d h = refl

key_event_over :
    (o : ReadOptions) (g : Stage) (s : ReadState) (d : ℕ)
    → s.is_over ≡ true
    → ((key_event o g s d).inputs ≡ s.inputs) × ((key_event o g s d).is_over ≡ true)
unfolding key_event take_key
key_event_over o g s d h = ground arith

-- A key that is no terminator is appended, and the last one that fits ends the read.
take_key_more :
    (o : ReadOptions) (s : ReadState) (d : ℕ)
    → s.is_over ≡ false
    → are_keys s.inputs ≡ true
    → text_eq (d ∷ []) o.terminators ≡ false
    → take_key o s d
      ≡ record s { inputs = s.inputs ++ (d ∷ []); is_over = length (s.inputs ++ (d ∷ [])) == o.max }
unfolding take_key
take_key_more o s d h a t = rw t (rw (keys_not_timeout s.inputs a) (rw h refl))

take_key_end :
    (o : ReadOptions) (s : ReadState) (d : ℕ)
    → text_eq (d ∷ []) o.terminators ≡ true
    → take_key o s d ≡ record s { is_over = true }
unfolding take_key
take_key_end o s d t = rw t refl

take_nil : (n : ℕ) → take {A = ℕ} n [] ≡ []
take_nil zero = refl
take_nil (suc n) = refl

take_cons :
    (m : ℕ) (a : Bytes) (d : ℕ) (r : Bytes)
    → length a < m
    → a ++ take (m - length a) (d ∷ r) ≡ (a ++ (d ∷ [])) ++ take (m - length (a ++ (d ∷ []))) r
take_cons m a d r h =
    let e : m - length a ≡ suc (m - length (a ++ (d ∷ []))) = omega (arith, length_snoc a d) in
    rw e (sym (append_assoc a (d ∷ []) (take (m - length (a ++ (d ∷ []))) r)))

-- Once it is over, further keys change nothing.
run_over :
    (o : ReadOptions) (s : ReadState) (ks : Bytes)
    → s.is_over ≡ true
    → (run o s (map dtmf ks)).inputs ≡ s.inputs
unfolding run step
run_over o s [] h = refl
run_over o s (d ∷ ks) h =
    let (same, over) = key_event_over o s.stage s d h in
    run_over o (key_event o s.stage s d) ks over ∙ same

-- `run_keys` for the keys after one that was taken, given that it holds for all states.
run_more :
    (o : ReadOptions) (s : ReadState) (d : ℕ) (ks : Bytes)
    → s.stage ≢ finished
    → length s.inputs < o.max
    → ((s' : ReadState)
        → s'.is_over ≡ false
        → s'.stage ≢ finished
        → length s'.inputs < o.max
        → s'.inputs ≡ s.inputs ++ (d ∷ [])
        → (run o s' (map dtmf ks)).inputs
          ≡ s'.inputs ++ take (o.max - length s'.inputs) (before o.terminators ks))
    → (run o
        (record s {
          inputs = s.inputs ++ (d ∷ []);
          is_over = length (s.inputs ++ (d ∷ [])) == o.max;
        })
        (map dtmf ks)).inputs
      ≡ (s.inputs ++ (d ∷ []))
        ++ take (o.max - length (s.inputs ++ (d ∷ []))) (before o.terminators ks)
run_more o s d ks g r ih = elim (Bool-cases (length (s.inputs ++ (d ∷ [])) == o.max)) [
  | inl full ↦
      run_over o _ ks full
      ∙ sym (append-nil (s.inputs ++ (d ∷ [])))
      ∙ ap (λ x. (s.inputs ++ (d ∷ [])) ++ take x (before o.terminators ks)) (no_room full)
  | inr more ↦ ih _ more g (ground (arith, length_snoc s.inputs d, more)) refl
]
  where
    no_room :
        ((length (s.inputs ++ (d ∷ [])) == o.max) ≡ true)
        → 0 ≡ o.max - length (s.inputs ++ (d ∷ []))
    no_room e = ground (arith, e)

run_keys :
    (o : ReadOptions) (s : ReadState) (ks : Bytes)
    → s.is_over ≡ false
    → s.stage ≢ finished
    → length s.inputs < o.max
    → are_keys s.inputs ≡ true
    → are_keys ks ≡ true
    → (run o s (map dtmf ks)).inputs
      ≡ s.inputs ++ take (o.max - length s.inputs) (before o.terminators ks)
unfolding run step before are_keys
run_keys o s [] h g r a k = rw take_nil (sym (append-nil s.inputs))
run_keys o s (d ∷ ks) h g r a k = elim (Bool-cases (text_eq (d ∷ []) o.terminators)) [
  | inl t ↦ rw t (
      ap (λ x. (run o x (map dtmf ks)).inputs)
        (key_event_open o s.stage s d g ∙ take_key_end o s d t)
      ∙ run_over o (record s { is_over = true }) ks refl
      ∙ sym (append-nil s.inputs)
      ∙ ap (λ x. s.inputs ++ x) (sym (take_nil (o.max - length s.inputs))))
  | inr t ↦ rw t (
      ap (λ x. (run o x (map dtmf ks)).inputs)
        (key_event_open o s.stage s d g ∙ take_key_more o s d h a t)
      ∙ run_more o s d ks g r (λ s' over stage fits e.
        run_keys o s' ks over stage fits
          (subst (λ x. are_keys x ≡ true) (sym e) (are_keys_snoc s.inputs d a (ground (arith, k))))
          (ground (arith, k)))
      ∙ sym (take_cons o.max s.inputs d (before o.terminators ks) r))
]

-- The keys that a caller presses while the file plays are read as they are up to the terminator, and no
-- further than the number that was asked for, which is at least one.
pub run-keys :
    (o : ReadOptions) (ks : Bytes)
    → 1 ≤ o.max
    → are_keys ks ≡ true
    → (run o start (broadcast_done ∷ map dtmf ks)).inputs ≡ take o.max (before o.terminators ks)
unfolding run step begin_play start are_keys
run-keys o ks h k =
    run_keys o (record start { stage = playing }) ks refl (λ e. cc) (omega (arith, h)) refl k
    ∙ ap (λ x. take x (before o.terminators ks)) (omega arith)
