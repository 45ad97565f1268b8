-- ===== src/Timer.antt =====
-- The retransmission timer of a channel: bzrtpTimer_t and its constants (include/typedef.h), the
-- handlers of timer events in the states that send on their own (src/stateMachine.c), bzrtp_iterate and
-- bzrtp_resetRetransmissionTimer (src/bzrtp.c).
use bzrtp.Common.{
  ℕ, ◌+◌, ◌*◌, ◌%◌, ◌^◌, Bool, true, false, ◌&&◌, not, if◌then◌else◌, ◌==◌, leb, List, [], ◌∷◌,
}
use bzrtp.Channel.{Role, initiator, responder}
pub mod Steps
pub mod Repetition

pub data TimerStatus : Type 0 where
  timer_on timer_off : TimerStatus

pub record Timer : Type 0 where
  pub status : TimerStatus
  pub firing_time : ℕ
  pub firing_count : ℕ
  pub timer_step : ℕ

-- The discovery states repeat a Hello, the others a Commit, a DHPart2, a Confirm2 or a GoClear.
pub data Repeats : Type 0 where
  hello non_hello : Repeats

abbrev pub base_retransmission_step : Repeats → ℕ
base_retransmission_step hello = 50
base_retransmission_step non_hello = 150

abbrev pub cap_retransmission_step : Repeats → ℕ
cap_retransmission_step hello = 200
cap_retransmission_step non_hello = 1200

abbrev pub max_retransmission_number : Repeats → ℕ
max_retransmission_number hello = 20
max_retransmission_number non_hello = 10

-- A Hello is sent at the next tick.
abbrev pub start_hello_timer : Timer
start_hello_timer = record { status = timer_on; firing_time = 0; firing_count = 0; timer_step = 50 }

-- The packet was just sent for the first time.
abbrev pub start_non_hello_timer : ℕ → Timer
start_non_hello_timer time_reference = record {
  status = timer_on;
  firing_time = (time_reference + 150) % 2 ^ 64;
  firing_count = 0;
  timer_step = 150;
}

-- What the first call of a state function sets.
unfoldable pub start_timer : Repeats → ℕ → Timer
start_timer hello time_reference = start_hello_timer
start_timer non_hello time_reference = start_non_hello_timer time_reference

unfoldable pub stop_timer : Timer → Timer
stop_timer t = record t { status = timer_off }

-- The step is doubled until it reaches the cap.
unfoldable pub next_step : Repeats → ℕ → ℕ
next_step k step = if leb (2 * step) (cap_retransmission_step k) then 2 * step else step

-- What the handler of a timer event does to the timer before it sends the packet again.
unfoldable pub adjust_timer : Repeats → ℕ → Timer → Timer
unfolding next_step
adjust_timer k time_reference t =
    if leb t.firing_count (max_retransmission_number k)
    then record t {
      timer_step = next_step k t.timer_step;
      firing_time = (time_reference + next_step k t.timer_step) % 2 ^ 64;
    }
    else record t { status = timer_off }

abbrev pub is_on : Timer → Bool
is_on t = elim t.status [ timer_on ↦ true | timer_off ↦ false ]

unfoldable pub is_due : ℕ → Timer → Bool
is_due time_reference t = is_on t && leb t.firing_time time_reference

-- A tick of bzrtp_iterate on a channel in such a state; `true` where the state gets a timer event, on
-- which it hands its packet to bzrtp_sendPacket again.
unfoldable pub iterate : Repeats → ℕ → Timer → Timer × Bool
unfolding is_due adjust_timer
iterate k time_reference t =
    if is_due time_reference t
    then (
      adjust_timer k time_reference (record t { firing_count = (t.firing_count + 1) % 256 }),
      true,
    )
    else (t, false)

-- `timerStep % NON_HELLO_BASE_RETRANSMISSION_STEP` tells what the timer repeats; -1 as a uint8_t is 255.
unfoldable pub rearm_timer : Timer → Timer
rearm_timer t = record {
  status = timer_on;
  firing_time = 0;
  firing_count = 255;
  timer_step = if t.timer_step % 150 == 0 then 150 else 50;
}

abbrev pub is_initiator : Role → Bool
is_initiator initiator = true
is_initiator responder = false

unfoldable pub reset_retransmission_timer : Bool → Role → Timer → Timer
unfolding rearm_timer
reset_retransmission_timer is_secure role t =
    if not is_secure && is_initiator role then rearm_timer t else t

-- How many timer events the ticks at the given times give.
unfoldable pub resent : Repeats → List ℕ → Timer → ℕ
unfolding iterate
resent k [] t = 0
resent k (time ∷ times) t =
    let (t', sent) = iterate k time t in
    let rest = resent k times t' in if sent then 1 + rest else rest

-- The packet is sent when the state is entered, but for the Hello, whose first sending is an event.
abbrev pub sent_on_entry : Repeats → ℕ
sent_on_entry hello = 0
sent_on_entry non_hello = 1

-- How often the packet is sent, by the state that starts the timer and by the ticks at the given times.
unfoldable pub sendings : Repeats → ℕ → List ℕ → ℕ
unfolding resent
sendings k time_reference times = sent_on_entry k + resent k times (start_timer k time_reference)
