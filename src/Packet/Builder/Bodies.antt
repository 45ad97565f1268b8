-- ===== src/Packet/Builder/Bodies.antt =====
-- The messages that the `switch` of bzrtp_packetBuild writes (src/packetParser.c), each as the bytes
-- behind its message header and before its MAC, with its length and the key of the MAC. Fields are
-- written side by side, so a body is their concatenation; an array field has its C length.
use bzrtp.Common.{
  ℕ, ◌+◌, ◌*◌, ◌%◌, Bytes, bytes32, length, read, List, [], ◌∷◌, ◌++◌, Option, none, some, Result,
  ok, ◌>>=◌, ◌>>◌, guard, Error, if◌then◌else◌, ◌==◌, not,
}
use bzrtp.Packet.Types.{HelloMessage, CommitMessage, DhPartMessage, PingAckMessage, GoClearMessage}
use bzrtp.Packet.Parser.Commit.{commit_pv_length}
use bzrtp.Algo.Names.{crypto_algo_type_int_to_string}
use bzrtp.Algo.{keyagreement_prsh, keyagreement_mult}
use bzrtp.Algo.Lengths.{
  KemSizes, compute_commit_message_variable_length, compute_key_agreement_public_value_length,
  PublicValueMessage,
}

-- `message_length` counts the message header and the MAC; `mac_key` is `none` where there is no MAC.
pub record Body : Type 0 where
  pub message_length : ℕ
  pub content : Bytes
  pub mac_key : Option Bytes

-- `bzrtp_cryptoAlgoTypeIntToString(…, messageString); messageString += 4;` over an array.
unfoldable pub algos_string : List ℕ → Bytes
algos_string [] = []
algos_string (algo ∷ algos) = crypto_algo_type_int_to_string algo ++ algos_string algos

unfoldable pub flags_string : HelloMessage → Bytes
flags_string m =
    (m.s % 2 * 64 + m.m % 2 * 32 + m.p % 2 * 16)
    ∷ (length m.supported_hash % 16)
    ∷ (length m.supported_cipher % 16 * 16 + length m.supported_auth_tag % 16)
    ∷ (length m.supported_key_agreement % 16 * 16 + length m.supported_sas % 16)
    ∷ []

unfoldable pub hello_content : HelloMessage → Bytes
unfolding algos_string flags_string
hello_content m =
    m.version
    ++ (m.client_identifier
        ++ (m.h3
            ++ (m.zid
                ++ (flags_string m
                    ++ (algos_string m.supported_hash
                        ++ (algos_string m.supported_cipher
                            ++ (algos_string m.supported_auth_tag
                                ++ (algos_string m.supported_key_agreement
                                    ++ algos_string m.supported_sas))))))))

-- Keyed by H2.
unfoldable pub hello_body : Bytes → HelloMessage → Body
unfolding hello_content
hello_body h2 m = record {
  message_length =
      88
      + 4
        * (length m.supported_hash
            + length m.supported_cipher
            + length m.supported_auth_tag
            + length m.supported_key_agreement
            + length m.supported_sas);
  content = hello_content m;
  mac_key = some h2;
}

-- The nonce and the key id, or the hvi and the public key of a KEM.
unfoldable pub commit_variable : KemSizes → KemSizes → CommitMessage → Result Bytes
commit_variable pk ct m =
    if m.key_agreement_algo == keyagreement_prsh
    then ok (m.nonce ++ m.key_id)
    else if m.key_agreement_algo == keyagreement_mult
    then ok m.nonce
    else do (pv, rest) ← read (commit_pv_length pk ct m.key_agreement_algo) m.pv; ok (m.hvi ++ pv)

-- The five algorithms, and what follows them.
unfoldable pub commit_algos : CommitMessage → Bytes → Bytes
commit_algos m variable =
    crypto_algo_type_int_to_string m.hash_algo
    ++ (crypto_algo_type_int_to_string m.cipher_algo
        ++ (crypto_algo_type_int_to_string m.auth_tag_algo
            ++ (crypto_algo_type_int_to_string m.key_agreement_algo
                ++ (crypto_algo_type_int_to_string m.sas_algo ++ variable))))

-- Keyed by H1.
unfoldable pub commit_body : KemSizes → KemSizes → Bytes → CommitMessage → Result Body
unfolding commit_variable commit_algos
commit_body pk ct h1 m =
    let variable_length = compute_commit_message_variable_length pk m.key_agreement_algo in
    do
      guard (not (variable_length == 0)) Error.builder_error_invalid_message
      variable ← commit_variable pk ct m
      ok (record {
        message_length = (84 + variable_length) % 65536;
        content = m.h2 ++ (m.zid ++ commit_algos m variable);
        mac_key = some h1;
      })

-- Keyed by H0.
unfoldable pub dhpart_body :
    KemSizes → KemSizes → Bytes → ℕ → PublicValueMessage → DhPartMessage → Result Body
dhpart_body pk ct h0 key_agreement message m =
    let pv_length = compute_key_agreement_public_value_length pk ct key_agreement message in
    do
      guard (not (pv_length == 0)) Error.builder_error_invalid_context
      (pv, rest) ← read pv_length m.pv
      ok (record {
        message_length = (84 + pv_length) % 65536;
        content = m.h1 ++ (m.rs1_id ++ (m.rs2_id ++ (m.auxsecret_id ++ (m.pbxsecret_id ++ pv))));
        mac_key = some h0;
      })

-- HelloACK, Conf2ACK and ClearACK are their header.
abbrev pub empty_body : Body
empty_body = record { message_length = 12; content = []; mac_key = none }

unfoldable pub go_clear_body : GoClearMessage → Body
go_clear_body m = record { message_length = 20; content = m.clear_mac; mac_key = none }

unfoldable pub ping_ack_body : PingAckMessage → Body
ping_ack_body m = record {
  message_length = 36;
  content = m.version ++ (m.endpoint_hash ++ (m.endpoint_hash_received ++ bytes32 m.ssrc));
  mac_key = none;
}
