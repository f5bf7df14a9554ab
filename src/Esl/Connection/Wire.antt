-- ===== src/Esl/Connection/Wire.antt =====
-- What `send` writes is one frame for the peer, which looks for the first blank line as
-- `_indexOfHeaderEnd` does.
use next_call.Base.{
  ℕ, suc, ◌+◌, ◌≡◌, refl, ◌∙◌, sym, ap, false, ◌&&◌, Option, none, some, [], ◌∷◌, ◌++◌, ◌==◌,
  length, length-append, All, All-append, ◌<◌, Bytes, arith, append_assoc,
}
use next_call.Esl.Value.{Value}
use next_call.Esl.Value.Decimal.{show}
use next_call.Esl.Event.{Fields}
use next_call.Esl.Parser.{index_of_header_end}
use next_call.Esl.Connection.State.{message_bytes, arg_lines}

abbrev pub IsOneLine : Bytes → Type 0
IsOneLine s = All (λ c. (c == b'\n') ≡ false) s

-- Keys and values with no line feed.
abbrev pub HasOneLineArgs : Fields → Type 0
HasOneLineArgs [] = Unit
HasOneLineArgs ((k, v) ∷ m) = IsOneLine k × IsOneLine (show v) × HasOneLineArgs m

-- The index behind `n` more bytes.
abbrev shift : ℕ → Option ℕ → Option ℕ
shift n none = none
shift n (some i) = some (n + i)

index_cons :
    (c d : ℕ) (s : Bytes)
    → (c == b'\n' && d == b'\n') ≡ false
    → index_of_header_end (c ∷ d ∷ s) ≡ shift 1 (index_of_header_end (d ∷ s))
unfolding index_of_header_end
index_cons c d s h = ground arith

-- No blank line ends inside a text of one line.
index_one_line :
    (t : Bytes) (d : ℕ) (s : Bytes)
    → IsOneLine t
    → index_of_header_end (t ++ d ∷ s) ≡ shift (length t) (index_of_header_end (d ∷ s))
index_one_line [] d s h = ground arith
index_one_line (c ∷ []) d s h = index_cons c d s (ground arith)
index_one_line (c ∷ x ∷ t) d s (hc, h) =
    index_cons c x (t ++ d ∷ s) (ground arith) ∙ ground (arith, index_one_line (x ∷ t) d s h)

-- Nor does one end in a line that is not empty, behind a line feed.
index_line :
    (t r : Bytes)
    → IsOneLine t
    → 0 < length t
    → index_of_header_end (b'\n' ∷ (t ++ b'\n' ∷ r))
      ≡ shift (suc (length t)) (index_of_header_end (b'\n' ∷ r))
index_line [] r h n = absurd (omega arith)
index_line (x ∷ t) r h n =
    index_cons b'\n' x (t ++ b'\n' ∷ r) (ground arith)
    ∙ ground (arith, index_one_line (x ∷ t) b'\n' r h)

abbrev line : Bytes → Value → Bytes
line k v = k ++ (b':' ∷ b' ' ∷ show v)

line-IsOneLine : (k : Bytes) (v : Value) → IsOneLine k → IsOneLine (show v) → IsOneLine (line k v)
line-IsOneLine k v hk hv = All-append _ k (b':' ∷ b' ' ∷ show v) hk (refl, (refl, hv))

arg_lines_cons :
    (k : Bytes) (v : Value) (m : Fields) (r : Bytes)
    → arg_lines ((k, v) ∷ m) ++ r ≡ line k v ++ b'\n' ∷ (arg_lines m ++ r)
unfolding arg_lines
arg_lines_cons k v m r = simp append_assoc

length-arg_lines :
    (k : Bytes) (v : Value) (m : Fields)
    → length (arg_lines ((k, v) ∷ m)) ≡ suc (length (line k v)) + length (arg_lines m)
unfolding arg_lines
length-arg_lines k v m = omega (
  arith,
  length-append k (b':' ∷ b' ' ∷ (show v ++ (b'\n' ∷ arg_lines m))),
  length-append (show v) (b'\n' ∷ arg_lines m),
  length-append k (b':' ∷ b' ' ∷ show v),
)

index_args :
    (args : Fields)
    → HasOneLineArgs args
    → index_of_header_end (b'\n' ∷ (arg_lines args ++ b'\n' ∷ [])) ≡ some (length (arg_lines args))
index_args [] h = unfold index_of_header_end arg_lines in refl
index_args ((k, v) ∷ m) (hk, hv, h) = rw (arg_lines_cons k v m (b'\n' ∷ [])) (
    index_line (line k v) _ (line-IsOneLine k v hk hv)
      (omega (arith, length-append k (b':' ∷ b' ' ∷ show v)))
    ∙ rw (index_args m h) (ap some (sym (length-arg_lines k v m))))

-- If the command and the keys and values of the arguments have no line feed, then the first blank
-- line of what is written is its end.
pub index-message_bytes :
    (command : Bytes) (args : Fields)
    → IsOneLine command
    → HasOneLineArgs args
    → (i : ℕ) × (index_of_header_end (message_bytes command args) ≡ some i)
      × (i + 2 ≡ length (message_bytes command args))
unfolding message_bytes
index-message_bytes command args h k = (
  length command + length (arg_lines args),
  index_one_line command b'\n' _ h ∙ rw (index_args args k),
  omega (
    arith,
    length-append command (b'\n' ∷ (arg_lines args ++ b'\n' ∷ [])),
    length-append (arg_lines args) (b'\n' ∷ []),
  ),
)
