-- ===== src/Machine/Entered.antt =====
-- The calls of a state with an init event keep the state that the caller has set, but that of the
-- secure state, which sets the flag (src/stateMachine.c).
use bzrtp.Common.{Option, none, some}
use bzrtp.Packet.Types.{Packet}
use bzrtp.Packet.Check.{Checked}
use bzrtp.Timer.{Repeats}
use bzrtp.Keys.{compute_s0_dhm_mode, compute_s0_multistream_mode}
use bzrtp.Keys.Srtp.{derive_srtp_keys_from_s0}
use bzrtp.Session.{Environment, Session, Output}
use bzrtp.Session.Action.{change}
use bzrtp.Machine.Sending.{Slot}
use bzrtp.Machine.Entering.{
  give_secrets, enter_sending_confirm2, prepare_confirm1, enter_sending_confirm1,
  enter_sending_dhpart1, enter_sending_dhpart2, begin_commit, enter_sending_commit,
}
use bzrtp.Machine.Discovery.{retransmit, receive, begin_hello, enter_discovery}
use bzrtp.Machine.Keeping.{Keeps, change-Keeps}
use bzrtp.Machine.Staying.{
  packets_keep, compute_s0_dhm_mode-view, compute_s0_multistream_mode-view,
  derive_srtp_keys_from_s0-view,
}

pub give_secrets-Keeps : (env : Environment) (o : Session → Output) → Keeps (give_secrets env o)
unfolding give_secrets
give_secrets-Keeps env o = search packets_keep depth 40

pub multistream-Keeps : (env : Environment) → Keeps (change (compute_s0_multistream_mode env))
multistream-Keeps env = change-Keeps _ (compute_s0_multistream_mode-view env)

pub dhm-Keeps : (env : Environment) → Keeps (change (compute_s0_dhm_mode env))
dhm-Keeps env = change-Keeps _ (compute_s0_dhm_mode-view env)

pub srtp-Keeps : (env : Environment) → Keeps (change (derive_srtp_keys_from_s0 env.crypto))
srtp-Keeps env = change-Keeps _ (derive_srtp_keys_from_s0-view env)

pub enter_sending_confirm2-Keeps : (env : Environment) → Keeps (enter_sending_confirm2 env)
unfolding enter_sending_confirm2
enter_sending_confirm2-Keeps env = search (packets_keep, srtp-Keeps, give_secrets-Keeps) depth 40

prepare_confirm1-Keeps : (env : Environment) → Keeps (prepare_confirm1 env)
unfolding prepare_confirm1
prepare_confirm1-Keeps env = search (packets_keep, multistream-Keeps) depth 40

pub enter_sending_confirm1-Keeps : (env : Environment) → Keeps (enter_sending_confirm1 env)
unfolding enter_sending_confirm1
enter_sending_confirm1-Keeps env = search (packets_keep, prepare_confirm1-Keeps) depth 40

pub enter_sending_dhpart1-Keeps : (env : Environment) → Keeps (enter_sending_dhpart1 env)
unfolding enter_sending_dhpart1
enter_sending_dhpart1-Keeps env = search packets_keep depth 40

pub enter_sending_dhpart2-Keeps : (env : Environment) → Keeps (enter_sending_dhpart2 env)
unfolding enter_sending_dhpart2
enter_sending_dhpart2-Keeps env = search packets_keep depth 40

begin_commit-Keeps : (env : Environment) (p : Option Packet) → Keeps (begin_commit env p)
unfolding begin_commit
begin_commit-Keeps env none = search packets_keep depth 40
begin_commit-Keeps env (some p) = search packets_keep depth 40

pub enter_sending_commit-Keeps : (env : Environment) → Keeps (enter_sending_commit env)
unfolding enter_sending_commit
enter_sending_commit-Keeps env = search (packets_keep, begin_commit-Keeps) depth 40

begin_hello-Keeps : (p : Option Packet) → Keeps (begin_hello p)
unfolding begin_hello
begin_hello-Keeps none = search packets_keep depth 40
begin_hello-Keeps (some p) = search packets_keep depth 40

pub enter_discovery-Keeps : (env : Environment) → Keeps (enter_discovery env)
unfolding enter_discovery
enter_discovery-Keeps env = search (packets_keep, begin_hello-Keeps) depth 40

pub receive-Keeps : (env : Environment) (c : Checked) → Keeps (receive env c)
unfolding receive
receive-Keeps env c = search packets_keep depth 40

pub retransmit-Keeps :
    (env : Environment) (k : Repeats) (slot : Slot) → Keeps (retransmit env k slot)
unfolding retransmit
retransmit-Keeps env k slot = search packets_keep depth 40
