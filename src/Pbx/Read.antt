-- ===== src/Pbx/Read.antt =====
-- src/esl/free-switch-pbx.service.ts: `uuidRead` plays a file and collects the keys that the caller
-- presses. Its variables are a state that the handlers of the connection's events change, in the order
-- in which the events come.
pub mod Laws
pub mod Keys
use next_call.Base.{
  ℕ, ◌+◌, ◌*◌, ◌==◌, ◌++◌, ltb, not, ◌&&◌, Bool, true, false, List, [], ◌∷◌, Bytes, codes, text_eq,
  if◌then◌else◌, length,
}

-- Where `uuidRead` is: at the `await` of the broadcast, at that of the playback, at the second of
-- silence after it, at the check of the time, and after it.
pub data Stage : Type 0 where
  broadcasting playing pausing checking finished : Stage

pub record ReadState : Type 0 where
  pub stage : Stage
  pub inputs : Bytes
  pub play_stoped : Bool
  pub is_over : Bool
  pub channel_hangup : Bool

pub record ReadOptions : Type 0 where
  pub terminators : Bytes
  pub max : ℕ
  pub timeout : ℕ

pub data ReadEvent : Type 0 where
  -- the broadcast is accepted
  broadcast_done : ReadEvent
  -- a DTMF event, after its handler has broken the playback
  dtmf : ℕ → ReadEvent
  playback_stop : ReadEvent
  channel_hung_up : ReadEvent
  pause_done : ReadEvent
  -- a check of the time, with the seconds since the first one
  check : ℕ → ReadEvent

unfoldable pub start : ReadState
start = record {
  stage = broadcasting;
  inputs = [];
  play_stoped = false;
  is_over = false;
  channel_hangup = false;
}

-- `getTerminatorsKey`
unfoldable pub take_key : ReadOptions → ReadState → ℕ → ReadState
take_key o s d =
    if text_eq (d ∷ []) o.terminators
    then record s { is_over = true }
    else if text_eq s.inputs (codes "timeout")
    then record s { is_over = true }
    else if s.is_over
    then s
    else record s {
      inputs = s.inputs ++ (d ∷ []);
      is_over = length (s.inputs ++ (d ∷ [])) == o.max;
    }

-- The handler of `PLAYBACK_STOP`, which stands while the file plays
unfoldable pub stop_playback : Stage → ReadState → ReadState
stop_playback playing s =
    if s.play_stoped then s else record s { play_stoped = true; stage = pausing }
stop_playback _ s = s

-- `onCallHangup`, and `startOnHangup`, which stands while the file plays
unfoldable pub hang_up : Stage → ReadState → ReadState
hang_up finished s = s
hang_up playing s =
    if s.play_stoped then record s { is_over = true; channel_hangup = true } else record s {
      play_stoped = true;
      is_over = true;
      channel_hangup = true;
      inputs = codes "hangup";
      stage = pausing;
    }
hang_up _ s = record s { is_over = true; channel_hangup = true }

-- After the second of silence
unfoldable pub end_pause : Stage → ReadState → ReadState
end_pause pausing s =
    if s.is_over then record s { stage = finished } else record s { stage = checking }
end_pause _ s = s

-- `checkTimeout`
unfoldable pub check_timeout : ReadOptions → Stage → ℕ → ReadState → ReadState
check_timeout o checking seconds s =
    if s.is_over
    then record s { stage = finished }
    else if ltb o.timeout (seconds * 1000)
    then record s { is_over = true; inputs = codes "timeout"; stage = finished }
    else s
check_timeout o _ seconds s = s

-- The DTMF listener stands until the end.
unfoldable pub key_event : ReadOptions → Stage → ReadState → ℕ → ReadState
key_event o finished s d = s
key_event o _ s d = take_key o s d

unfoldable pub begin_play : Stage → ReadState → ReadState
begin_play broadcasting s = record s { stage = playing }
begin_play _ s = s

unfoldable pub step : ReadOptions → ReadState → ReadEvent → ReadState
step o s broadcast_done = begin_play s.stage s
step o s (dtmf d) = key_event o s.stage s d
step o s playback_stop = stop_playback s.stage s
step o s channel_hung_up = hang_up s.stage s
step o s pause_done = end_pause s.stage s
step o s (check seconds) = check_timeout o s.stage seconds s

unfoldable pub run : ReadOptions → ReadState → List ReadEvent → ReadState
run o s [] = s
run o s (e ∷ l) = run o (step o s e) l
