-- ===== src/Machine.antt =====
-- The state machine of a channel (src/stateMachine.c) and the calls of src/bzrtp.c that drive it: the
-- start of the channel, a tick, and a received datagram.
pub mod Repeated
pub mod Sending
pub mod Cache
pub mod Entering
pub mod Greeting
pub mod Responding
pub mod Discovery
pub mod SharedSecret
pub mod Commitment
pub mod Exchange
pub mod Destruction
pub mod Clear
pub mod Confirmation
pub mod Driving
pub mod Keeping
pub mod Kept
pub mod Staying
pub mod Entered
pub mod Answered
pub mod Edges
pub mod Graph
pub mod Clearing
pub mod Progress
pub mod Driven
pub mod Cleared
pub mod UserEvents
pub mod Ticks
pub mod Runs
pub mod Forged
pub mod Secured
