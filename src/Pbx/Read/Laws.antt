-- ===== src/Pbx/Read/Laws.antt =====
-- src/esl/free-switch-pbx.service.ts: what `uuidRead` returns.
use next_call.Base.{
  ℕ, ◌+◌, ◌≤◌, ◌<◌, ◌≡◌, ◌⊎◌, inr, refl, ◌++◌, false, List, [], ◌∷◌, Bytes, codes, length, arith,
  length-append,
}
use next_call.Pbx.Read.{
  Stage, broadcasting, playing, pausing, checking, finished, ReadState, ReadOptions, ReadEvent,
  broadcast_done, dtmf, playback_stop, channel_hung_up, pause_done, check, start, take_key,
  stop_playback, hang_up, end_pause, check_timeout, key_event, begin_play, step, run,
}

-- While keys are awaited there is room for one more; and what is there is never too long, unless it is
-- one of the two words.
record Fits (o : ReadOptions) (s : ReadState) : Type 0 where
  room : s.is_over ≡ false → length s.inputs < o.max
  size : (s.inputs ≡ codes "timeout") ⊎ ((s.inputs ≡ codes "hangup") ⊎ (length s.inputs ≤ o.max))

pub length_snoc : (a : Bytes) (d : ℕ) → length (a ++ (d ∷ [])) ≡ length a + 1
length_snoc a d = simp length-append refl

take_key-Fits : (o : ReadOptions) (s : ReadState) (d : ℕ) → Fits o s → Fits o (take_key o s d)
unfolding take_key
take_key-Fits o s d h = record {
  room = ground (arith, h.room, length_snoc s.inputs d);
  size = ground (arith, h.room, h.size, length_snoc s.inputs d);
}

key_event-Fits :
    (o : ReadOptions) (g : Stage) (s : ReadState) (d : ℕ) → Fits o s → Fits o (key_event o g s d)
unfolding key_event
key_event-Fits o finished s d h = h
key_event-Fits o broadcasting s d h = take_key-Fits o s d h
key_event-Fits o playing s d h = take_key-Fits o s d h
key_event-Fits o pausing s d h = take_key-Fits o s d h
key_event-Fits o checking s d h = take_key-Fits o s d h

step-Fits : (o : ReadOptions) (s : ReadState) (e : ReadEvent) → Fits o s → Fits o (step o s e)
unfolding step begin_play stop_playback hang_up end_pause check_timeout
step-Fits o s (dtmf d) h = key_event-Fits o s.stage s d h
step-Fits o s broadcast_done h = record {
  room = ground (arith, h.room);
  size = ground (arith, h.size);
}
step-Fits o s playback_stop h = record {
  room = ground (arith, h.room);
  size = ground (arith, h.size);
}
step-Fits o s channel_hung_up h = record {
  room = ground (arith, h.room);
  size = ground (arith, h.size);
}
step-Fits o s pause_done h = record { room = ground (arith, h.room); size = ground (arith, h.size) }
step-Fits o s (check n) h = record { room = ground (arith, h.room); size = ground (arith, h.size) }

run-Fits : (o : ReadOptions) (s : ReadState) (l : List ReadEvent) → Fits o s → Fits o (run o s l)
unfolding run
run-Fits o s [] h = h
run-Fits o s (e ∷ l) h = run-Fits o (step o s e) l (step-Fits o s e h)

-- Whatever events come and in whatever order, a read for at least one key gives the word timeout, the
-- word hangup, or no more keys than were asked for.
pub run-inputs :
    (o : ReadOptions) (l : List ReadEvent)
    → 1 ≤ o.max
    → ((run o start l).inputs ≡ codes "timeout")
      ⊎ (((run o start l).inputs ≡ codes "hangup") ⊎ (length (run o start l).inputs ≤ o.max))
unfolding start
run-inputs o l h =
    (run-Fits o start l
      (record { room = λ e. omega (arith, h); size = inr (inr (omega arith)) })).size
