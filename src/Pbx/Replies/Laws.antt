-- ===== src/Pbx/Replies/Laws.antt =====
-- src/esl/free-switch-pbx.service.ts: the second word of an answer.
use next_call.Base.{
  ap, ◌≡◌, refl, Bool, true, false, ◌&&◌, not, some, [], ◌∷◌, ◌++◌, Bytes, codes, starts_with,
  if◌then◌else◌, arith,
}
use next_call.Pbx.Replies.{
  is_space, take_word, skip_spaces, second_word, is_ok, Outcome, succeeds, fails, resolved_outcome,
}

-- A word has a character, and no space.
unfoldable pub no_space : Bytes → Bool
no_space [] = true
no_space (c ∷ r) = not (is_space c) && no_space r

unfoldable pub is_word : Bytes → Bool
is_word [] = false
is_word (c ∷ r) = no_space (c ∷ r)

take_word-line : (w : Bytes) (r : Bytes) → no_space w ≡ true → take_word (w ++ (10 ∷ r)) ≡ w
unfolding take_word no_space is_space
take_word-line [] r h = refl
take_word-line (c ∷ w) r h = ground (arith, take_word-line w r)

skip_spaces-word : (w : Bytes) (r : Bytes) → is_word w ≡ true → skip_spaces (w ++ r) ≡ w ++ r
unfolding skip_spaces is_word no_space
skip_spaces-word [] r h = ground arith
skip_spaces-word (c ∷ w) r h = ground arith

word_no_space : (w : Bytes) → is_word w ≡ true → no_space w ≡ true
unfolding is_word
word_no_space [] h = ground arith
word_no_space (c ∷ w) h = h

second_word-word :
    (a w : Bytes)
    → no_space a ≡ true
    → is_word w ≡ true
    → second_word (a ++ (32 ∷ (w ++ (10 ∷ [])))) ≡ some w
unfolding second_word no_space is_space
second_word-word [] w h k =
    ap some (rw (skip_spaces-word w (10 ∷ []) k) (take_word-line w [] (word_no_space w k)))
second_word-word (c ∷ a) w h k = ground (arith, second_word-word a w)

-- What the switch writes: a word after `+OK` or after `-ERR`, and the end of the line.
unfoldable pub answer_text : Outcome → Bytes
answer_text (succeeds (some w)) = codes "+OK" ++ (32 ∷ (w ++ (10 ∷ [])))
answer_text (fails (some w)) = codes "-ERR" ++ (32 ∷ (w ++ (10 ∷ [])))
answer_text _ = []

-- The answer to an origination or to a bridge, of success or of failure with a word that has no space,
-- is read back as that outcome.
pub resolved_outcome-answer_text :
    (ok : Bool) (w : Bytes)
    → is_word w ≡ true
    → resolved_outcome (answer_text (if ok then succeeds (some w) else fails (some w)))
      ≡ (if ok then succeeds (some w) else fails (some w))
unfolding resolved_outcome answer_text is_ok starts_with codes no_space is_space
resolved_outcome-answer_text true w h = ap succeeds (second_word-word (codes "+OK") w refl h)
resolved_outcome-answer_text false w h = ap fails (second_word-word (codes "-ERR") w refl h)
