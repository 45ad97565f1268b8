-- ===== src/Timer/Repetition.antt =====
-- How often a timer has its packet sent again (src/stateMachine.c, src/bzrtp.c).
use bzrtp.Common.{ℕ, ◌+◌, ◌%◌, ◌^◌, ◌≤◌, ◌<◌, List, [], ◌∷◌}
use bzrtp.Timer.{Timer, timer_off, Repeats, hello, non_hello, cap_retransmission_step, next_step}

-- The timer after the tick that stops it.
abbrev given_up : Timer → Timer
given_up t = record t { status = timer_off; firing_count = (t.firing_count + 1) % 256 }

-- The timer after a tick that leaves it on.
abbrev repeated : Repeats → ℕ → Timer → Timer
repeated k time t = record {
  status = t.status;
  firing_time = (time + next_step k t.timer_step) % 2 ^ 64;
  firing_count = (t.firing_count + 1) % 256;
  timer_step = next_step k t.timer_step;
}

-- The most that a packet is sent: a Hello as often as the maximal number of retransmissions says, the
-- first sending not counted; any other packet once more, by twelve sendings for a maximum of ten.
abbrev pub most_sendings : Repeats → ℕ
most_sendings hello = 21
most_sendings non_hello = 12

-- Ticks that are at least the cap of the step apart, before the clock of 64 bits ends.
pub data IsSpaced (k : Repeats) : ℕ → List ℕ → Type 0 where
  no_tick : (last : ℕ) → IsSpaced k last []
  tick :
      (last time : ℕ) (times : List ℕ)
      → last + cap_retransmission_step k ≤ time
      → time + cap_retransmission_step k < 2 ^ 64
      → IsSpaced k time times
      → IsSpaced k last (time ∷ times)
