-- ===== src/Timer/Steps.antt =====
-- The steps between the packets that a timer repeats, and its reset (src/stateMachine.c, src/bzrtp.c).
use bzrtp.Common.{ℕ, Bool}
use bzrtp.Channel.{Role}
use bzrtp.Timer.{
  Timer, Repeats, hello, non_hello, start_timer, stop_timer, iterate, reset_retransmission_timer,
}

-- The timers of a channel while it repeats one kind of message: a state starts it, ticks and resets
-- change it, and a message of the peer stops it.
pub data Reached (k : Repeats) : Timer → Type 0 where
  started : (time : ℕ) → Reached k (start_timer k time)
  ticked : (time : ℕ) (t : Timer) → Reached k t → Reached k (iterate k time t).0
  reset :
      (is_secure : Bool) (role : Role) (t : Timer)
      → Reached k t
      → Reached k (reset_retransmission_timer is_secure role t)
  stopped : (t : Timer) → Reached k t → Reached k (stop_timer t)

-- The steps of a Hello and of the other messages.
pub data IsStep : Repeats → ℕ → Type 0 where
  hello_base : IsStep hello 50
  hello_double : IsStep hello 100
  hello_cap : IsStep hello 200
  non_hello_base : IsStep non_hello 150
  non_hello_double : IsStep non_hello 300
  non_hello_fourfold : IsStep non_hello 600
  non_hello_cap : IsStep non_hello 1200
