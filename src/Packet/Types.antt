-- ===== src/Packet/Types.antt =====
-- include/packetParser.h: message types, the messages and the packet that holds one. An array of the
-- source is a list of bytes; an array of algorithms with its count (`hc`, `supportedHash`) is a list.
use bzrtp.Common.{ℕ, Bytes, List, Option}

pub data MessageType : Type 0 where
  invalid hello hello_ack commit dhpart1 dhpart2 confirm1 confirm2 conf2_ack : MessageType
  error error_ack go_clear clear_ack sas_relay relay_ack ping ping_ack fragment : MessageType

pub MessageType-discrete : Discrete MessageType
MessageType-discrete = hlevel

-- `clientIdentifier` is 17 bytes in C, of which the last is always 0 and left out here.
pub record HelloMessage : Type 0 where
  pub version : Bytes
  pub client_identifier : Bytes
  pub h3 : Bytes
  pub zid : Bytes
  pub s : ℕ
  pub m : ℕ
  pub p : ℕ
  pub supported_hash : List ℕ
  pub supported_cipher : List ℕ
  pub supported_auth_tag : List ℕ
  pub supported_key_agreement : List ℕ
  pub supported_sas : List ℕ
  pub mac : Bytes

-- `pv` is empty where the source holds NULL.
pub record CommitMessage : Type 0 where
  pub h2 : Bytes
  pub zid : Bytes
  pub hash_algo : ℕ
  pub cipher_algo : ℕ
  pub auth_tag_algo : ℕ
  pub key_agreement_algo : ℕ
  pub sas_algo : ℕ
  pub hvi : Bytes
  pub nonce : Bytes
  pub key_id : Bytes
  pub pv : Bytes
  pub mac : Bytes

pub record DhPartMessage : Type 0 where
  pub h1 : Bytes
  pub rs1_id : Bytes
  pub rs2_id : Bytes
  pub auxsecret_id : Bytes
  pub pbxsecret_id : Bytes
  pub pv : Bytes
  pub mac : Bytes

-- The flags E, V, A and D are the fields `e`, `v`, `a` and `d`.
pub record ConfirmMessage : Type 0 where
  pub confirm_mac : Bytes
  pub cfb_iv : Bytes
  pub h0 : Bytes
  pub sig_len : ℕ
  pub e : ℕ
  pub v : ℕ
  pub a : ℕ
  pub d : ℕ
  pub cache_expiration_interval : ℕ
  pub signature_block_type : Bytes
  pub signature_block : Bytes

pub record GoClearMessage : Type 0 where
  pub clear_mac : Bytes

pub record PingMessage : Type 0 where
  pub version : Bytes
  pub endpoint_hash : Bytes

pub record PingAckMessage : Type 0 where
  pub version : Bytes
  pub endpoint_hash : Bytes
  pub endpoint_hash_received : Bytes
  pub ssrc : ℕ

-- What the `void *messageData` of a packet points to.
pub data MessageData : Type 0 where
  hello_data : HelloMessage → MessageData
  commit_data : CommitMessage → MessageData
  dhpart_data : DhPartMessage → MessageData
  confirm_data : ConfirmMessage → MessageData
  go_clear_data : GoClearMessage → MessageData
  ping_data : PingMessage → MessageData
  ping_ack_data : PingAckMessage → MessageData

-- A packet of type MSGTYPE_FRAGMENT in the list of the packet that it is a part of.
pub record Fragment : Type 0 where
  pub sequence_number : ℕ
  pub source_identifier : ℕ
  pub message_length : ℕ
  pub packet_string : Bytes

-- `none` stands for NULL.
pub record Packet : Type 0 where
  pub sequence_number : ℕ
  pub source_identifier : ℕ
  pub message_type : MessageType
  pub message_length : ℕ
  pub message_data : Option MessageData
  pub packet_string : Option Bytes
  pub fragments : List Fragment
