-- ===== src/Packet/Parser/Commit.antt =====
-- The MSGTYPE_COMMIT case of bzrtp_packetParser (src/packetParser.c). `pk` and `ct` are the sizes of the
-- public keys and cipher texts of the post quantum engine.
use bzrtp.Common.{
  ℕ, ◌+◌, Bytes, drop, read, replicate, [], Option, some, Result, ok, ◌>>=◌, ◌>>◌, guard, Error,
  if◌then◌else◌, ◌==◌, not,
}
use bzrtp.Packet.Types.{Packet, CommitMessage, commit_data}
use bzrtp.Packet.Parser.Reading.{read_algo, check_hello}
use bzrtp.Channel.{Crypto}
use bzrtp.Algo.{Family, keyagreement_prsh, keyagreement_mult}
use bzrtp.Algo.Lengths.{
  KemSizes, compute_commit_message_variable_length, compute_key_agreement_public_value_length,
  is_kem, in_commit,
}

-- `nonce`, `keyID`, `hvi` and `pv`; the message is cleared by memset before it is filled.
pub record CommitVariable : Type 0 where
  pub nonce : Bytes
  pub key_id : Bytes
  pub hvi : Bytes
  pub pv : Bytes

unfoldable pub read_prsh : Bytes → Result (CommitVariable × Bytes)
read_prsh content = do
  (nonce, content) ← read 16 content
  (key_id, content) ← read 8 content
  ok (record { nonce = nonce; key_id = key_id; hvi = replicate 32 0; pv = [] }, content)

unfoldable pub read_mult : Bytes → Result (CommitVariable × Bytes)
read_mult content = do
  (nonce, content) ← read 16 content
  ok (record { nonce = nonce; key_id = replicate 8 0; hvi = replicate 32 0; pv = [] }, content)

-- `pvLength`, where there is a public key.
unfoldable pub commit_pv_length : KemSizes → KemSizes → ℕ → ℕ
commit_pv_length pk ct key_agreement =
    if is_kem key_agreement
    then compute_key_agreement_public_value_length pk ct key_agreement in_commit
    else 0

unfoldable pub read_dh : KemSizes → KemSizes → ℕ → Bytes → Result (CommitVariable × Bytes)
unfolding commit_pv_length
read_dh pk ct key_agreement content = do
  (hvi, content) ← read 32 content
  (pv, content) ← read (commit_pv_length pk ct key_agreement) content
  ok (record { nonce = replicate 16 0; key_id = replicate 8 0; hvi = hvi; pv = pv }, content)

-- The part of the message whose fields depend on the key agreement.
unfoldable pub read_variable : KemSizes → KemSizes → ℕ → Bytes → Result (CommitVariable × Bytes)
unfolding read_prsh read_mult read_dh
read_variable pk ct key_agreement content =
    if key_agreement == keyagreement_prsh
    then read_prsh content
    else if key_agreement == keyagreement_mult
    then read_mult content
    else read_dh pk ct key_agreement content

-- The message behind its H2.
unfoldable pub parse_commit_message : KemSizes → KemSizes → ℕ → Bytes → Bytes → Result CommitMessage
unfolding read_variable
parse_commit_message pk ct message_length h2 content = do
  (zid, content) ← read 12 content
  (hash, content) ← read_algo Family.hash_type content
  (cipher, content) ← read_algo Family.cipherblock_type content
  (auth_tag, content) ← read_algo Family.authtag_type content
  (key_agreement, content) ← read_algo Family.keyagreement_type content
  guard (not (compute_commit_message_variable_length pk key_agreement == 0))
      Error.parser_error_invalid_message
  guard (message_length == 84 + compute_commit_message_variable_length pk key_agreement)
      Error.parser_error_invalid_message
  (sas, content) ← read_algo Family.sas_type content
  (variable, content) ← read_variable pk ct key_agreement content
  (mac, content) ← read 8 content
  ok (record {
    h2 = h2;
    zid = zid;
    hash_algo = hash;
    cipher_algo = cipher;
    auth_tag_algo = auth_tag;
    key_agreement_algo = key_agreement;
    sas_algo = sas;
    hvi = variable.hvi;
    nonce = variable.nonce;
    key_id = variable.key_id;
    pv = variable.pv;
    mac = mac;
  })

unfoldable pub parse_commit :
    KemSizes → KemSizes → Crypto → Option Packet → Bytes → ℕ → Packet → Result Packet
unfolding parse_commit_message check_hello
parse_commit pk ct c peer_hello input input_length p = do
  (h2, content) ← read 32 (drop 24 input)
  check_hello c peer_hello h2
  message ← parse_commit_message pk ct p.message_length h2 content
  (stored, rest) ← read input_length input
  ok (record p { message_data = some (commit_data message); packet_string = some stored })
