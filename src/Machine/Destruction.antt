-- ===== src/Machine/Destruction.antt =====
-- The MAC of a GoClear, and the end of the encryption: bzrtp_destroyKeyMaterial (src/cryptoUtils.cc) and
-- the step into state_clear (src/stateMachine.c).
use bzrtp.Common.{Bytes, codes, [], Option, none, some, Result, ok, fault, ◌>>=◌, true, false}
use bzrtp.Channel.{Crypto, Channel, initiator}
use bzrtp.Packet.Types.{MessageData, go_clear_data}
use bzrtp.Packet.Parser.Confirm.{call_hmac, peer_mackey}
use bzrtp.Keys.Derivation.{key_derivation_function, stored_key}
use bzrtp.Timer.{Timer}
use bzrtp.Session.{Environment, Session, clear}

-- The MAC that a GoClear of the peer must carry.
unfoldable pub expected_clear_mac : Crypto → Channel → Result Bytes
expected_clear_mac c ch = do
  key ← stored_key (peer_mackey ch.role ch)
  call_hmac c ch key (codes "GoClear ")

-- A packet that was not parsed has no message data to read.
unfoldable pub clear_mac_of : Option MessageData → Result Bytes
clear_mac_of (some (go_clear_data m)) = ok m.clear_mac
clear_mac_of _ = fault

-- bzrtp_destroyKeyMaterial.
unfoldable pub destroy_key_material : Session → Session
destroy_key_material s = record s {
  s0 = none;
  kdf_context = [];
  channel = record s.channel { mackeyi = none; mackeyr = none; zrtpkeyi = none; zrtpkeyr = none };
  srtp_secrets = record s.srtp_secrets {
    self_srtp_key = [];
    self_srtp_salt = [];
    peer_srtp_key = [];
    peer_srtp_salt = [];
    sas = none;
  };
}

-- The new ZRTPSess.
unfoldable pub new_zrtp_sess : Environment → Session → Result Bytes
new_zrtp_sess env s = do
  key ← stored_key s.zrtp_sess
  key_derivation_function env.crypto s.channel.hmac_function key (codes "New ZRTP Session")
      s.zrtp_sess_context s.channel.hash_length

-- The init event of state_clear.
abbrev enter_clear : Session → Session
enter_clear s = record s {
  state_machine = clear;
  is_clear = true;
  channel = record s.channel { role = initiator };
}

-- From the end of the encryption to the clear state, with what becomes of the timer.
unfoldable pub go_clear : Environment → (Session → Timer) → Session → Result Session
unfolding destroy_key_material new_zrtp_sess
go_clear env timer s = do
  sess ← new_zrtp_sess env (destroy_key_material s)
  ok (
      enter_clear (record (destroy_key_material s) {
        is_secure = false;
        zrtp_sess = some sess;
        timer = timer s;
      }))
