-- ===== src/Ivr/Schedule/Laws.antt =====
-- src/esl/ivr.service.ts: when it is time to work, said without the loops and the flag of the code.
use next_call.Ivr.{IvrData, Call, create_process}
use next_call.Base.Integer.{ℤ}
use next_call.Session.{◌>>=◌, World, Now, Answer, resolves, ok}
use next_call.Ivr.Action.Rules.{is_action, IsStep, step_rules, IsStep-time}
use next_call.Base.{
  Any, here, there, ℕ, ◌≤◌, ◌≡◌, refl, ◌⊎◌, inl, inr, ◌↔◌, ◌==◌, ==_iff, Bool, true, false, not,
  ◌&&◌, Option, none, some, List, [], ◌∷◌, All, Bytes, Bool-cases, arith, if◌then◌else◌, codes,
}
use next_call.Ivr.Schedule.{
  Moment, Schedule, is_empty, exists, within, holds_in, in_hours, on_days, not_work_range,
  work_range, day_off, work_day_and_time, check_date_time, beijing, next,
}

module _ {A : Type 0} {P : A → Type 0} (f : A → Bool) (h : (a : A) → (f a ≡ true) ↔ P a) where
  exists-Any : (l : List A) → exists f l ≡ true → Any P l
  unfolding exists
  exists-Any [] e = absurd (ground (arith, e))
  exists-Any (x ∷ l) e = elim (Bool-cases (f x)) [
    | inl p ↦ here ((h x).0 p)
    | inr q ↦ there (exists-Any l (ground (arith, q, e)))
  ]

  Any-exists : (l : List A) → Any P l → exists f l ≡ true
  unfolding exists
  Any-exists [] a = elim a [ ]
  Any-exists (x ∷ l) (here p) = rw ((h x).1 p) refl
  Any-exists (x ∷ l) (there a) = ground (arith, Any-exists l a)

  exists-All : (l : List A) → exists f l ≡ false → All (λ a. ¬ P a) l
  unfolding exists
  exists-All [] e = tt
  exists-All (x ∷ l) e =
      (λ p. let q = (h x).1 p in ground (arith, q, e), exists-All l (ground (arith, e)))

  All-exists : (l : List A) → All (λ a. ¬ P a) l → exists f l ≡ false
  unfolding exists
  All-exists [] a = refl
  All-exists (x ∷ l) (p, a) = elim (Bool-cases (f x)) [
    | inl e ↦ absurd (p ((h x).0 e))
    | inr e ↦ rw e (All-exists l a)
  ]

-- Both ends of the range can be read, and the time is between them.
abbrev pub Covers : (Bytes → Option ℕ) → ℕ → Bytes × Bytes → Type 0
Covers parse t (first, last) =
    (a : ℕ) × (b : ℕ) × (parse first ≡ some a) × (parse last ≡ some b) × (a ≤ t) × (t ≤ b)

within_iff :
    (t : ℕ) (o p : Option ℕ)
    → (within t o p ≡ true) ↔ ((a : ℕ) × (b : ℕ) × (o ≡ some a) × (p ≡ some b) × (a ≤ t) × (t ≤ b))
unfolding within
within_iff t none p =
    (λ h. absurd (ground (arith, h)), λ (a, b, h, _, _, _). absurd (ground (arith, h)))
within_iff t (some a) none =
    (λ h. absurd (ground (arith, h)), λ (x, b, _, h, _, _). absurd (ground (arith, h)))
within_iff t (some a) (some b) = (
  λ h. (a, b, refl, refl, ground (arith, h), ground (arith, h)),
  λ (x, y, h, k, i, j). ground (arith, h, k, i, j),
)

-- A list of days names the day, or is empty and says nothing.
on_days_iff :
    (work : Bool) (day : ℕ) (days : List ℕ)
    → (on_days work day days ≡ true) ↔ ((work ≡ true) × ((days ≡ []) ⊎ Any (λ d. day ≡ d) days))
unfolding on_days
on_days_iff work day [] = (λ h. (ground (arith, h), inl refl), λ (h, _). ground (arith, h))
on_days_iff work day (d ∷ ds) = (
  λ h. (ground (arith, h), inr (exists-Any (◌==◌ day) (==_iff day) (d ∷ ds) (ground (arith, h)))),
  λ (h, k). elim k [
    | inl e ↦ absurd (ground (arith, e))
    | inr a ↦ let f = Any-exists (◌==◌ day) (==_iff day) (d ∷ ds) a in ground (arith, h, f)
  ],
)

module _ (parse : Bytes → Option ℕ) where
  holds_in_iff :
      (range : Moment → Bytes → Bytes × Bytes) (m : Moment) (r : Bytes)
      → (holds_in parse range m r ≡ true) ↔ Covers parse m.millis (range m r)
  unfolding holds_in
  holds_in_iff range m r = within_iff m.millis (parse (range m r).0) (parse (range m r).1)

  -- No range without work covers the moment; if there are ranges with work, one does; and the days of
  -- the week and of the month name it, or are not given.
  pub record IsWorkTime (m : Moment) (s : Schedule) : Type 0 where
    pub no_day_off : All (λ r. ¬ Covers parse m.millis (not_work_range m r)) s.not_work_times
    pub in_a_range : (s.times ≡ []) ⊎ Any (λ r. Covers parse m.millis (work_range m r)) s.times
    pub on_a_weekday : (s.weeks ≡ []) ⊎ Any (λ d. m.week ≡ d) s.weeks
    pub on_a_date : (s.dates ≡ []) ⊎ Any (λ d. m.date ≡ d) s.dates

  hours_iff :
      (work : Bool) (m : Moment) (s : Schedule)
      → (in_hours parse work m s ≡ true) ↔ (
          (work ≡ true)
          × ((s.times ≡ []) ⊎ Any (λ r. Covers parse m.millis (work_range m r)) s.times))
  unfolding in_hours
  hours_iff work m s =
      elim s.times
        as (λ ts.
          ((if work && not (is_empty ts) then exists (holds_in parse work_range m) ts else work)
            ≡ true)
          ↔ ((work ≡ true) × ((ts ≡ []) ⊎ Any (λ r. Covers parse m.millis (work_range m r)) ts))) [
            | [] ↦ (λ h. (ground (arith, h), inl refl), λ (h, _). ground (arith, h))
            | t ∷ ts ↦ (
              λ h. (
                ground (arith, h),
                inr (
                    exists-Any (holds_in parse work_range m) (holds_in_iff work_range m) (t ∷ ts)
                      (ground (arith, h))),
              ),
              λ (h, k). elim k [
                | inl e ↦ absurd (ground (arith, e))
                | inr a ↦
                    let f =
                      Any-exists (holds_in parse work_range m) (holds_in_iff work_range m) (t ∷ ts)
                        a in
                    ground (arith, h, f)
              ],
            )
          ]

  open_day_iff :
      (m : Moment) (s : Schedule)
      → ((if is_empty s.not_work_times then true else not (day_off parse m s)) ≡ true)
        ↔ All (λ r. ¬ Covers parse m.millis (not_work_range m r)) s.not_work_times
  unfolding day_off
  open_day_iff m s =
      let f = holds_in parse not_work_range m in
      elim s.not_work_times
        as (λ rs.
          ((if is_empty rs then true else not (exists f rs)) ≡ true)
          ↔ All (λ r. ¬ Covers parse m.millis (not_work_range m r)) rs) [
            | [] ↦ (λ _. tt, λ _. refl)
            | r ∷ rs ↦ (
              λ h. exists-All f (holds_in_iff not_work_range m) (r ∷ rs) (ground (arith, h)),
              λ a.
                  let e = All-exists f (holds_in_iff not_work_range m) (r ∷ rs) a in
                  ground (arith, e),
            )
          ]

  -- The flag that the step computes is true exactly at a time of work: outside all ranges without work,
  -- and inside some range with work, on one of the weekdays and on one of the dates, as far as these
  -- are given.
  pub work_day_and_time-IsWorkTime :
      (m : Moment) (s : Schedule) → (work_day_and_time parse m s ≡ true) ↔ IsWorkTime m s
  unfolding work_day_and_time
  work_day_and_time-IsWorkTime m s =
      let open_day = if is_empty s.not_work_times then true else not (day_off parse m s) in
      let hours = in_hours parse open_day m s in
      (
        λ h.
            let (h, on_date) = (on_days_iff (on_days hours m.week s.weeks) m.date s.dates).0 h in
            let (h, on_week) = (on_days_iff hours m.week s.weeks).0 h in
            let (h, inside) = (hours_iff open_day m s).0 h in
            record {
              no_day_off = (open_day_iff m s).0 h;
              in_a_range = inside;
              on_a_weekday = on_week;
              on_a_date = on_date;
            },
        λ p. (on_days_iff (on_days hours m.week s.weeks) m.date s.dates).1 (
          (on_days_iff hours m.week s.weeks).1 (
            (hours_iff open_day m s).1 ((open_day_iff m s).1 p.no_day_off, p.in_a_range),
            p.on_a_weekday,
          ),
          p.on_a_date,
        ),
      )

  -- Where its record can be written, the step goes on as the schedule says for a time of work if it is
  -- one in Beijing, and as it says for the other times if it is not.
  pub check_date_time-IsWorkTime :
      (moment : ℕ → Moment) (zone : ℤ) (s : Schedule) (w : World IvrData Call)
      (n : Now IvrData Call) (a : Answer)
      → w.reply (create_process (codes "ivrReturn") ∷ n.log) ≡ resolves a
      → let m = moment (beijing zone (w.clock n.log)) in
        (IsWorkTime m s
          → (check_date_time parse moment zone s w n).0 ≡ ok (next (codes "ivr") s.done_go))
        × (¬ IsWorkTime m s
            → (check_date_time parse moment zone s w n).0 ≡ ok (next (codes "ivr") s.error_go))
  unfolding check_date_time ◌>>=◌
  check_date_time-IsWorkTime moment zone s w n a h =
      let m = moment (beijing zone (w.clock n.log)) in
      (
        λ p. rw (h, (work_day_and_time-IsWorkTime m s).1 p) refl,
        λ p. elim (Bool-cases (work_day_and_time parse m s)) [
          | inl e ↦ absurd (p ((work_day_and_time-IsWorkTime m s).0 e))
          | inr e ↦ rw (h, e) refl
        ],
      )

  pub check_date_time-IsStep :
      (moment : ℕ → Moment) (zone : ℤ) (s : Schedule) → IsStep (check_date_time parse moment zone s)
  unfolding check_date_time is_action
  check_date_time-IsStep moment zone s = search (step_rules, IsStep-time) depth 8
