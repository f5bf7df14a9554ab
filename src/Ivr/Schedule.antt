-- ===== src/Ivr/Schedule.antt =====
-- src/esl/ivr.service.ts: `checkDateTime`, the step that jumps by the date and the time in Beijing.
pub mod Laws
use next_call.Base.{
  ℕ, suc, ◌+◌, ◌-◌, ◌*◌, ◌++◌, ◌==◌, ltb, leb, not, ◌||◌, ◌&&◌, Bool, true, false, Option, none,
  some, List, [], ◌∷◌, Bytes, codes, split, get_elem?, if◌then◌else◌,
}
use next_call.Base.Integer.{ℤ, pos, negsuc}
use next_call.Esl.Value.Decimal.{show_nat}
use next_call.Session.{pure, time, await, ◌>>=◌, ◌>>◌}
use next_call.Ivr.{NextStep, Call, create_process, Ivr}
use next_call.Ivr.Compare.{string_of}
use next_call.Ivr.Steps.{next}

-- What the step reads of a `Date`: `getTime`, `getFullYear`, `getMonth` and 1, `getDate`, `getDay`.
pub record Moment : Type 0 where
  pub millis : ℕ
  pub year : ℕ
  pub month : ℕ
  pub date : ℕ
  pub week : ℕ

-- `args.logic` and `args.pbx`; a list that is not set is empty, and so is a jump.
pub record Schedule : Type 0 where
  pub not_work_times : List Bytes
  pub times : List Bytes
  pub weeks : List ℕ
  pub dates : List ℕ
  pub done_go : Bytes
  pub error_go : Bytes

abbrev pub is_empty : {A : Type 0} → List A → Bool
is_empty [] = true
is_empty (x ∷ xs) = false

-- A loop that ends at the first element that passes
unfoldable pub exists : {A : Type 0} → (A → Bool) → List A → Bool
exists f [] = false
exists f (x ∷ xs) = f x || exists f xs

-- The time in Beijing of a server whose `getTimezoneOffset` is the first argument. The time of the
-- server is beyond the first day of 1970, so the subtraction is exact.
unfoldable pub beijing : ℤ → ℕ → ℕ
beijing (pos n) t = t + n * 60000 + 3600000 * 8
beijing (negsuc n) t = t + 3600000 * 8 - suc n * 60000

unfoldable pub two_digits : ℕ → Bytes
two_digits n = if ltb n 10 then codes "0" ++ show_nat n else show_nat n

unfoldable pub today : Moment → Bytes
today m = show_nat m.year ++ (codes "-" ++ (two_digits m.month ++ (codes "-" ++ two_digits m.date)))

-- The first and the last second of a range without work, and of a range with work
unfoldable pub not_work_range : Moment → Bytes → Bytes × Bytes
not_work_range m r =
    let p = split b'_' r in
    (
      show_nat m.year ++ (codes "-" ++ (string_of (get_elem? p 0) ++ codes ":00")),
      show_nat m.year ++ (codes "-" ++ (string_of (get_elem? p 1) ++ codes ":59")),
    )

unfoldable pub work_range : Moment → Bytes → Bytes × Bytes
work_range m r =
    let p = split b'-' r in
    (
      today m ++ (codes " " ++ (string_of (get_elem? p 0) ++ codes ":00")),
      today m ++ (codes " " ++ (string_of (get_elem? p 1) ++ codes ":59")),
    )

-- `t >= start && t <= end`, where a time that cannot be read is `NaN`
unfoldable pub within : ℕ → Option ℕ → Option ℕ → Bool
within t (some a) (some b) = leb a t && leb t b
within t _ _ = false

unfoldable pub on_days : Bool → ℕ → List ℕ → Bool
on_days work day days =
    if work && (not (is_empty days) && not (exists (◌==◌ day) days)) then false else work

-- `parse` is `new Date(text).getTime()`, with `none` for `NaN`, and `moment` is `new Date(number)`.
module _ (parse : Bytes → Option ℕ) where
  unfoldable pub holds_in : (Moment → Bytes → Bytes × Bytes) → Moment → Bytes → Bool
  holds_in range m r = let (a, b) = range m r in within m.millis (parse a) (parse b)

  unfoldable pub day_off : Moment → Schedule → Bool
  day_off m s = exists (holds_in not_work_range m) s.not_work_times

  unfoldable pub in_hours : Bool → Moment → Schedule → Bool
  in_hours work m s =
      if work && not (is_empty s.times) then exists (holds_in work_range m) s.times else work

  unfoldable pub work_day_and_time : Moment → Schedule → Bool
  work_day_and_time m s =
      let open_day = if is_empty s.not_work_times then true else not (day_off m s) in
      on_days (on_days (in_hours open_day m s) m.week s.weeks) m.date s.dates

  unfoldable pub check_date_time : (ℕ → Moment) → ℤ → Schedule → Ivr NextStep
  check_date_time moment zone s = do
    t ← time
    let work = work_day_and_time (moment (beijing zone t)) s
    await (create_process (codes "ivrReturn"))
    pure (next (codes "ivr") (if work then s.done_go else s.error_go))
