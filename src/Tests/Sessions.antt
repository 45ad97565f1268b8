-- ===== src/Tests/Sessions.antt =====
-- Sample sessions: an environment of toy functions, and two endpoints of a call.
use bzrtp.Common.{ℕ, [], ◌∷◌, replicate, take, none, some, Result, ok, err, fault, Bool, true}
use bzrtp.Channel.{Channel, initiator, responder, base32}
use bzrtp.Context.{Context, CachedSecretsHash}
use bzrtp.Algo.Lengths.{no_kem}
use bzrtp.Packet.Types.{MessageType, Packet}
use bzrtp.Secrets.{CachedSecrets, auxsecret_unset}
use bzrtp.Session.{Environment, Session, State, SrtpSecrets, not_started}
use bzrtp.Timer.{timer_off}
use bzrtp.Tests.Data.{toy, channel, no_packets}

abbrev pub env : Environment
env = record {
  junk = 0xAA;
  pk = no_kem;
  ct = no_kem;
  ss = none;
  crypto = toy;
  key_exchange = record {
    is_available = λ algo. true;
    private_key = λ algo n. replicate 32 (n);
    public_value = λ algo k. k;
    compute_secret = λ algo k pv. take 32 pv;
    encaps = λ algo h n pk. (pk, pk);
    decaps = λ algo h k ct. ct;
  };
  send_data = some (λ d. 0);
  srtp_secrets_available = true;
  start_srtp_session = true;
  random = λ n len. replicate len n;
  associated_secrets = λ zid. record { rs1 = none; rs2 = none; auxsecret = none; pbxsecret = none };
  associated_pvs = λ zid. 0;
}

abbrev no_ids : CachedSecretsHash
no_ids = record { rs1_id = []; rs2_id = []; pbxsecret_id = [] }

abbrev pub context : ℕ → Context
context zid = record {
  mtu = 1200;
  self_zid = replicate 12 zid;
  supported_hash = 0x11 ∷ [];
  supported_cipher = 0x21 ∷ [];
  supported_auth_tag = 0x31 ∷ [];
  supported_key_agreement = 0x42 ∷ [];
  supported_sas = 0xa1 ∷ [];
  self_accept_go_clear = 0;
  previously_verified_sas = 0;
  initiator_cached_secret_hash = no_ids;
  responder_cached_secret_hash = no_ids;
}

abbrev no_secrets : CachedSecrets
no_secrets = record { rs1 = none; rs2 = none; auxsecret = none; pbxsecret = none }

abbrev no_srtp : SrtpSecrets
no_srtp = record {
  self_srtp_key = [];
  self_srtp_salt = [];
  peer_srtp_key = [];
  peer_srtp_salt = [];
  cipher_algo = 0;
  cipher_key_length = 0;
  auth_tag_algo = 0;
  sas = none;
  hash_algo = 0;
  key_agreement_algo = 0;
  sas_algo = 0;
  cache_mismatch = 0;
  aux_secret_mismatch = auxsecret_unset;
}

abbrev pub session : State → Context → ℕ → Channel → Session
session state ctx peer_zid ch = record {
  context = ctx;
  channel = ch;
  state_machine = state;
  timer = record { status = timer_off; firing_time = 0; firing_count = 0; timer_step = 0 };
  is_clear = Bool.false;
  is_secure = Bool.false;
  is_main_channel = true;
  peer_h0 = [];
  peer_h1 = [];
  peer_h2 = [];
  peer_h3 = [];
  s0 = none;
  kdf_context = [];
  srtp_secrets = no_srtp;
  initiator_auxsecret_id = [];
  responder_auxsecret_id = [];
  context_is_secure = Bool.false;
  time_reference = 0;
  key_agreement_context = none;
  key_agreement_algo = 0;
  peer_zid = replicate 12 peer_zid;
  peer_bzrtp_version = 0;
  cached_secret = no_secrets;
  cache_mismatch_flag = 0;
  peer_accept_go_clear = 0;
  peer_pvs = 0;
  transient_aux_secret = none;
  zrtp_sess = none;
  zrtp_sess_context = [];
  draws = 0;
  outputs = [];
}

-- A built packet whose message repeats a byte.
abbrev pub packet : MessageType → ℕ → Packet
packet t b = record {
  sequence_number = 0;
  source_identifier = 1;
  message_type = t;
  message_length = 8;
  message_data = none;
  packet_string = some (replicate 24 b);
  fragments = [];
}

-- The value of a computation that succeeds.
abbrev pub result_of {ℓ} : {A : Type ℓ} → A → Result A → A
result_of d (ok a) = a
result_of d (err e) = d
result_of d fault = d

-- The two endpoints when the DHParts have crossed: the initiator and the responder.
abbrev pub alice : Session
alice =
    record (session not_started (context 1) 2 (record (channel initiator) {
      key_agreement_algo = 0x42;
      sas_function = some base32;
      self_packets = record no_packets {
        commit = some (packet MessageType.commit 2);
        dhpart = some (packet MessageType.dhpart2 4);
      };
      peer_packets = record no_packets {
        hello = some (packet MessageType.hello 1);
        dhpart = some (packet MessageType.dhpart1 3);
      };
    })) {
      key_agreement_context =
          some (record { private_key = []; hash_algo = 0; secret = some (replicate 32 5) });
      key_agreement_algo = 0x42;
    }

abbrev pub bob : Session
bob =
    record (session not_started (context 2) 1 (record (channel responder) {
      key_agreement_algo = 0x42;
      sas_function = some base32;
      self_packets = record no_packets {
        hello = some (packet MessageType.hello 1);
        dhpart = some (packet MessageType.dhpart1 3);
      };
      peer_packets = record no_packets {
        commit = some (packet MessageType.commit 2);
        dhpart = some (packet MessageType.dhpart2 4);
      };
    })) {
      key_agreement_context =
          some (record { private_key = []; hash_algo = 0; secret = some (replicate 32 5) });
      key_agreement_algo = 0x42;
    }
