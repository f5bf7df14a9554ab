-- ===== src/Ccqueue/Tips.antt =====
-- src/esl/ccqueue.service.ts: the announcements to a waiting caller, `allBusyTip`, `dialQueueTimeOut`
-- and the timer's `timoutCheck`, and the music between them. The loops that ask the caller for a key
-- run on fuel.

pub mod Laws
use next_call.Base.{
  [], ◌∷◌, ℕ, zero, suc, ◌-◌, ◌*◌, Bool, true, false, not, ◌&&◌, ◌||◌, Option, none, some, Bytes,
  codes, text_eq, text_or, if◌then◌else◌, ltb,
}
use next_call.Session.{pure, suspend, get, time, modify, await, try_catch, ◌>>=◌, ◌>>◌}
use next_call.Base.Integer.{ℤ, pos, negsuc, above_zero, pred}
use next_call.Ccqueue.{
  Leg, Queue, QueueData, Queued, Call, read, playback, break_media, kill, broadcast, wait, queue_of,
}

-- What the test of `inputKey` tells apart.
pub data Key : Type 0 where
  go_on timed_out wrong : Key

unfoldable pub key_of : Option Bytes → Key
unfolding text_eq codes
key_of none = wrong
key_of (some k) =
    if text_eq k (codes "1")
    then go_on
    else if text_eq k (codes "timeout")
    then timed_out
    else wrong

abbrev pub option_or : {A : Type 0} → Option A → A → A
option_or none d = d
option_or (some a) d = a

-- The options of `allBusyTip`, with their defaults.
pub record TipOptions : Type 0 where
  pub file : Bytes
  pub timeout_file : Bytes
  pub err_file : Bytes
  pub key_time_out : ℕ

unfoldable pub tip_options : Queue → TipOptions
tip_options q = record {
  file = text_or q.abt_file (codes "demo/queuetimeout.wav");
  timeout_file = text_or q.abt_input_timeout_file (codes "demo/timeoutandhangup.wav");
  err_file = text_or q.abt_input_err_file (codes "demo/inputerror.wav");
  key_time_out = option_or q.abt_key_time_out 15 * 1000;
}

-- One round after the key was read; `again` is the next round.
unfoldable pub after_key : Leg → TipOptions → ℤ → ℤ → (ℤ → ℤ → Queued Bool) → Key → Queued Bool
after_key leg o t e again go_on = pure true
after_key leg o t e again timed_out = if not (above_zero t) then pure false else do
  await (playback leg.conn_id leg.call_id o.timeout_file)
  await (wait 500)
  again (pred t) e
after_key leg o t e again wrong =
    if not (above_zero e)
    then pure false
    else do await (playback leg.conn_id leg.call_id o.err_file); again t (pred e)

unfoldable pub busy_tip_loop : ℕ → Leg → TipOptions → ℤ → ℤ → Queued Bool
busy_tip_loop zero leg o t e = suspend
busy_tip_loop (suc k) leg o t e = do
  a ← await (read leg.conn_id leg.call_id o.file o.key_time_out)
  after_key leg o t e (busy_tip_loop k leg o) (key_of a.body)

-- The error is logged, and the caller gets `undefined`.
unfoldable pub all_busy_tip : ℕ → Leg → Queue → Queued (Option Bool)
all_busy_tip fuel leg q =
    try_catch
      (do
        b ←
            busy_tip_loop fuel leg (tip_options q) (option_or q.abt_timeout_retry (pos 2))
              (option_or q.abt_input_err_retry (negsuc 0))
        pure (some b))
      (λ _. pure none)

-- `result.wait` of `dialQueueTimeOut`. A wrong key is asked again, without a limit.
unfoldable pub time_out_key : Leg → Queued Bool → Key → Queued Bool
time_out_key leg again go_on = pure true
time_out_key leg again timed_out = do
  await (playback leg.conn_id leg.call_id (codes "demo/timeoutandhangup.wav"))
  await (wait 500)
  await (kill leg.call_id (codes "Dial Queue Timeout!"))
  pure false
time_out_key leg again wrong = again

unfoldable pub time_out_loop : ℕ → Leg → Bytes → Queued Bool
time_out_loop zero leg file = suspend
time_out_loop (suc k) leg file = do
  a ← await (read leg.conn_id leg.call_id file (15 * 1000))
  time_out_key leg (time_out_loop k leg (codes "demo/inputerror.wav")) (key_of a.body)

unfoldable pub time_out_file : QueueData → Bytes
time_out_file d =
    text_or (elim d.queue [ none ↦ [] | some q ↦ q.queue_timeout_file ])
      (codes "demo/queuetimeout.wav")

unfoldable pub dial_queue_time_out : ℕ → Leg → Queued Bool
dial_queue_time_out fuel leg = do
  d ← get
  await (break_media leg.conn_id leg.call_id)
  time_out_loop fuel leg (time_out_file d)

unfoldable pub play_queue_music : Leg → Queued (Unit {0})
play_queue_music leg = do
  d ← get
  await (broadcast leg.conn_id leg.call_id d.queue_music_file)
  pure tt

-- The two announcements of the timer, and what follows each.
unfoldable pub tip_timeout : ℕ → Leg → Queued (Unit {0})
tip_timeout fuel leg = do
  modify (λ d. record d { is_done_timeout_tip = true })
  await (break_media leg.conn_id leg.call_id)
  wait_on ← dial_queue_time_out fuel leg
  if not wait_on
      then pure tt
      else do later ← time; modify (λ d. record d { start_time = later }); play_queue_music leg
  modify (λ d. record d { is_done_timeout_tip = false })

unfoldable pub tip_busy : ℕ → Leg → Queue → Queued (Unit {0})
tip_busy fuel leg q = do
  modify (λ d. record d { is_done_busy_tip = true })
  await (break_media leg.conn_id leg.call_id)
  wait_on ← all_busy_tip fuel leg q
  if option_or wait_on false then play_queue_music leg else pure tt
  modify (λ d. record d { is_done_busy_tip = false })

-- The checks of `timoutCheck` at the time `now`. The method sets `busyTipTime` anew at each call, so its waiting time is that of the queue.
unfoldable pub check_times : ℕ → Leg → ℕ → QueueData → Queued (Unit {0})
check_times fuel leg now d = do
  q ← queue_of d
  let waited = now - d.start_time
  if ltb (q.max_wait_time * 1000) waited && not d.is_done_timeout_tip && not d.is_done_busy_tip
      then tip_timeout fuel leg
      else if ltb (30 * 1000) waited && not d.is_done_busy_tip && not d.is_done_timeout_tip
      then tip_busy fuel leg q
      else pure tt

unfoldable pub timout_check : ℕ → Leg → Queued (Unit {0})
timout_check fuel leg =
    try_catch
      (do
        d ← get
        now ← time
        if d.is_done_busy_tip || d.is_done_timeout_tip
            then modify (λ d. record d { start_time = now })
            else check_times fuel leg now d)
      (λ _. pure tt)
