-- ===== src/Machine/Answered.antt =====
-- The Hello of the peer, its DHPart and its Commit, up to the change of the state, keep the state
-- (src/stateMachine.c).
use bzrtp.Common.{Bytes, Option, none, some, Bool, ◌≡◌, refl, >>=-ok, ok-injective, ap, sym}
use bzrtp.Packet.Types.{MessageType, Packet, CommitMessage, DhPartMessage, HelloMessage}
use bzrtp.Algo.Agreement.{Outcome, done, failed}
use bzrtp.Session.{Environment, Session}
use bzrtp.Session.Action.{modify}
use bzrtp.Machine.Cache.{
  draw_unless, compute_secret_hashes, compute_auxsecret_ids, get_peer_associated_secrets,
  load_secrets, match_dhpart1, match_dhpart2, reset_pvs_on_mismatch, renew_retained_secret,
  update_cached_secrets,
}
use bzrtp.Machine.Greeting.{
  set_channel, remember_hello, select_mode, prepare_dhpart, response_to_hello_message,
}
use bzrtp.Machine.Responding.{renew_dhpart, rebuild_dhpart, take_commit}
use bzrtp.Machine.SharedSecret.{compute_shared_secret, with_shared_secret, new_key_context}
use bzrtp.Machine.Commitment.{multistream_keys, contention_flags, contend}
use bzrtp.Machine.Keeping.{Keeps, keeps, view, modify-Keeps, change-Keeps}
use bzrtp.Machine.Staying.{packets_keep}
use bzrtp.Machine.Entered.{multistream-Keeps}

draw_unless-Keeps : (env : Environment) (o : Option Bytes) → Keeps (draw_unless env o)
unfolding draw_unless
draw_unless-Keeps env none = search keeps depth 40
draw_unless-Keeps env (some x) = search keeps depth 40

compute_secret_hashes-Keeps : (env : Environment) → Keeps (compute_secret_hashes env)
unfolding compute_secret_hashes
compute_secret_hashes-Keeps env = search (keeps, draw_unless-Keeps) depth 60

compute_auxsecret_ids-Keeps : (env : Environment) → Keeps (compute_auxsecret_ids env)
unfolding compute_auxsecret_ids
compute_auxsecret_ids-Keeps env = search (keeps, draw_unless-Keeps) depth 60

load_secrets-view :
    (env : Environment) (zid : Bytes) (o : Option Bytes) (s : Session)
    → view (load_secrets env zid o s) ≡ view s
unfolding load_secrets
load_secrets-view env zid none s = refl
load_secrets-view env zid (some x) s = refl

get_peer_associated_secrets-Keeps :
    (env : Environment) (zid : Bytes) → Keeps (modify (get_peer_associated_secrets env zid))
unfolding get_peer_associated_secrets
get_peer_associated_secrets-Keeps env zid = modify-Keeps _ λ s. load_secrets-view env zid _ s

reset_pvs_on_mismatch-Keeps : Keeps reset_pvs_on_mismatch
unfolding reset_pvs_on_mismatch
reset_pvs_on_mismatch-Keeps = search keeps depth 40

pub match_dhpart1-Keeps : (m : DhPartMessage) → Keeps (match_dhpart1 m)
unfolding match_dhpart1
match_dhpart1-Keeps m = search (keeps, reset_pvs_on_mismatch-Keeps) depth 40

pub match_dhpart2-Keeps : (m : DhPartMessage) → Keeps (match_dhpart2 m)
unfolding match_dhpart2
match_dhpart2-Keeps m = search (keeps, reset_pvs_on_mismatch-Keeps) depth 40

renew_retained_secret-Keeps : (env : Environment) → Keeps (renew_retained_secret env)
unfolding renew_retained_secret
renew_retained_secret-Keeps env = search keeps depth 40

pub update_cached_secrets-Keeps : (env : Environment) → Keeps (update_cached_secrets env)
unfolding update_cached_secrets
update_cached_secrets-Keeps env = search (keeps, renew_retained_secret-Keeps) depth 40

set_channel-Keeps : (o : Outcome) → Keeps (set_channel o)
unfolding Keeps set_channel
set_channel-Keeps (done ch) s = refl
set_channel-Keeps (failed ch e) s = refl

remember_hello-Keeps : (p : Packet) (m : HelloMessage) → Keeps (remember_hello p m)
unfolding remember_hello
remember_hello-Keeps p m = search keeps depth 40

select_mode-Keeps : (env : Environment) (m : HelloMessage) → Keeps (select_mode env m)
unfolding select_mode
select_mode-Keeps env m =
    search
      (
        keeps, compute_secret_hashes-Keeps, compute_auxsecret_ids-Keeps,
        get_peer_associated_secrets-Keeps,
      )
      depth 40

prepare_dhpart-Keeps : (env : Environment) → Keeps (prepare_dhpart env)
unfolding prepare_dhpart
prepare_dhpart-Keeps env = search packets_keep depth 40

pub response_to_hello_message-Keeps :
    (env : Environment) (p : Packet) → Keeps (response_to_hello_message env p)
unfolding response_to_hello_message
response_to_hello_message-Keeps env p =
    search
      (
        packets_keep, set_channel-Keeps, remember_hello-Keeps, select_mode-Keeps,
        prepare_dhpart-Keeps,
      )
      depth 40

renew_dhpart-Keeps : (env : Environment) (p : Packet) → Keeps (renew_dhpart env p)
unfolding renew_dhpart
renew_dhpart-Keeps env p = search packets_keep depth 40

pub rebuild_dhpart-Keeps : (env : Environment) (p : Option Packet) → Keeps (rebuild_dhpart env p)
unfolding rebuild_dhpart
rebuild_dhpart-Keeps env none = search packets_keep depth 40
rebuild_dhpart-Keeps env (some p) = search (packets_keep, renew_dhpart-Keeps) depth 40

pub take_commit-Keeps : (p : Packet) (m : CommitMessage) → Keeps (take_commit p m)
unfolding take_commit
take_commit-Keeps p m = search keeps depth 40

contention_flags-Keeps : (same : Bool) → Keeps (contention_flags same)
unfolding contention_flags
contention_flags-Keeps same = search keeps depth 40

pub contend-Keeps : (m : CommitMessage) → Keeps (contend m)
unfolding contend
contend-Keeps m = search (keeps, contention_flags-Keeps) depth 40

pub multistream_keys-Keeps : (env : Environment) (t : MessageType) → Keeps (multistream_keys env t)
unfolding multistream_keys
multistream_keys-Keeps env MessageType.confirm1 = search (keeps, multistream-Keeps) depth 40
multistream_keys-Keeps env _ = search keeps depth 40

pub compute_shared_secret-Keeps :
    (env : Environment) (t : MessageType) (pv : Bytes) → Keeps (compute_shared_secret env t pv)
unfolding compute_shared_secret with_shared_secret
compute_shared_secret-Keeps env t pv = change-Keeps _ λ s u h.
    >>=-ok (new_key_context env t pv s) _ h λ k made done. ap view (sym (ok-injective done))
