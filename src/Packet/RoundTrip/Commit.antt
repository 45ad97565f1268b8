-- ===== src/Packet/RoundTrip/Commit.antt =====
-- A Commit that is built is parsed back by the endpoint that stored the sender's Hello
-- (src/packetParser.c).
use bzrtp.Common.{
  ℕ, ◌+◌, ◌%◌, ◌<◌, Bytes, codes, length, read-append, ◌++◌, append_assoc, Option, some, ok,
  ==_false, ==_refl, ◌≡◌, ◌≢◌, refl, arith,
}
use bzrtp.Packet.Types.{MessageType, Packet, CommitMessage, commit_data}
use bzrtp.Channel.{Crypto, CryptoLaws}
use bzrtp.Algo.{Family}
use bzrtp.Algo.Names.{IsNamed, crypto_algo_type_int_to_string}
use bzrtp.Algo.Lengths.{KemSizes, compute_commit_message_variable_length}
use bzrtp.Packet.Delivery.{entire_string, received_packet}
use bzrtp.Packet.Parser.Reading.{check_hello, read_algo}
use bzrtp.Packet.Parser.Commit.{parse_commit, parse_commit_message, read_variable}
use bzrtp.Packet.Builder.{build_message}
use bzrtp.Packet.Builder.Bodies.{Body, commit_algos, commit_body, commit_variable}
use bzrtp.Packet.RoundTrip.Reading.{read-field, read_algo-append}
use bzrtp.Packet.RoundTrip.Frame.{
  trailer, drop-build_message, read_all, built_mac, length-built_mac,
}
use bzrtp.Packet.RoundTrip.CommitVariable.{
  VariableIsValid, VariableIsValid-WritesVariable, WritesVariable, fields_of,
}

module _ (pk ct : KemSizes) where
  -- A Commit whose arrays have their C lengths, of named algorithms and a known key agreement.
  pub record CommitIsValid (m : CommitMessage) : Type 0 where
    pub h2_length : length m.h2 ≡ 32
    pub zid_length : length m.zid ≡ 12
    pub hash_named : IsNamed m.hash_algo Family.hash_type
    pub cipher_named : IsNamed m.cipher_algo Family.cipherblock_type
    pub auth_tag_named : IsNamed m.auth_tag_algo Family.authtag_type
    pub key_agreement_named : IsNamed m.key_agreement_algo Family.keyagreement_type
    pub sas_named : IsNamed m.sas_algo Family.sas_type
    pub known : compute_commit_message_variable_length pk m.key_agreement_algo ≢ 0
    pub small : compute_commit_message_variable_length pk m.key_agreement_algo < 65000
    pub variable : VariableIsValid pk ct m

  read_algo-field :
      (family : Family) (n : ℕ) (ys tail : Bytes)
      → IsNamed n family
      → read_algo family ((crypto_algo_type_int_to_string n ++ ys) ++ tail) ≡ ok (n, ys ++ tail)
  read_algo-field family n ys tail h =
      rw (append_assoc (crypto_algo_type_int_to_string n) ys tail)
        (read_algo-append family n (ys ++ tail) h)

  -- The content behind H2, whatever MAC and bytes follow.
  parse_commit_message-commit_algos :
      (m : CommitMessage) (variable mac rest : Bytes)
      → CommitIsValid m
      → ((tail : Bytes)
          → read_variable pk ct m.key_agreement_algo (variable ++ tail) ≡ ok (fields_of m, tail))
      → length mac ≡ 8
      → parse_commit_message pk ct
          (84 + compute_commit_message_variable_length pk m.key_agreement_algo)
          m.h2
          ((m.zid ++ commit_algos m variable) ++ (mac ++ rest))
        ≡ ok (record m { mac = mac })
  unfolding parse_commit_message commit_algos
  parse_commit_message-commit_algos m variable mac rest v reads h =
      let size = compute_commit_message_variable_length pk m.key_agreement_algo in
      rw (
        read-field 12 m.zid _ (mac ++ rest) v.zid_length,
        read_algo-field Family.hash_type m.hash_algo _ (mac ++ rest) v.hash_named,
        read_algo-field Family.cipherblock_type m.cipher_algo _ (mac ++ rest) v.cipher_named,
        read_algo-field Family.authtag_type m.auth_tag_algo _ (mac ++ rest) v.auth_tag_named,
        read_algo-field Family.keyagreement_type m.key_agreement_algo _ (mac ++ rest)
            v.key_agreement_named,
        ==_false size 0 v.known,
        ==_refl (84 + size),
        read_algo-field Family.sas_type m.sas_algo _ (mac ++ rest) v.sas_named,
        reads (mac ++ rest),
        read-append 8 mac rest h,
      )

  -- The body that is written for a valid message.
  commit_body-CommitIsValid :
      (h1 : Bytes) (m : CommitMessage) (variable : Bytes)
      → CommitIsValid m
      → commit_variable pk ct m ≡ ok variable
      → commit_body pk ct h1 m
        ≡ ok (record {
          message_length = 84 + compute_commit_message_variable_length pk m.key_agreement_algo;
          content = m.h2 ++ (m.zid ++ commit_algos m variable);
          mac_key = some h1;
        })
  unfolding commit_body
  commit_body-CommitIsValid h1 m variable v e =
      let size = compute_commit_message_variable_length pk m.key_agreement_algo in
      let small : (84 + size) % 65536 ≡ 84 + size = omega (arith, v.small) in
      rw (==_false size 0 v.known, e, small)

  -- The body that is written for the message is parsed back as the message, with its MAC, against the
  -- Hello in the store.
  unfoldable pub CommitArrives : Crypto → Bytes → CommitMessage → Option Packet → ℕ → ℕ → Type 0
  CommitArrives c h1 m store seq ssrc =
      (body : Body) × (commit_body pk ct h1 m ≡ ok body)
      × (let message = build_message c (codes "Commit  ") body in
          let input = entire_string seq ssrc message in
          let p = received_packet seq ssrc MessageType.commit body.message_length in
          parse_commit pk ct c store input (length input) p
          ≡ ok (record p {
            message_data =
                some (commit_data (record m { mac = built_mac c (codes "Commit  ") body }));
            packet_string = some input;
          }))

  -- A valid Commit that is built and sent is parsed as the same message, with its MAC, by an endpoint
  -- whose stored Hello opens under its H2.
  pub parse_commit-build_message :
      (c : Crypto) (laws : CryptoLaws c) (h1 : Bytes) (m : CommitMessage) (store : Option Packet)
      (seq ssrc : ℕ)
      → CommitIsValid m
      → check_hello c store m.h2 ≡ ok tt
      → CommitArrives c h1 m store seq ssrc
  unfolding parse_commit WritesVariable CommitArrives
  parse_commit-build_message c laws h1 m store seq ssrc v opens =
      let (variable, written, reads) = VariableIsValid-WritesVariable pk ct m v.variable in
      let name = codes "Commit  " in
      let body : Body = record {
        message_length = 84 + compute_commit_message_variable_length pk m.key_agreement_algo;
        content = m.h2 ++ (m.zid ++ commit_algos m variable);
        mac_key = some h1;
      } in
      let tail = trailer seq ssrc (build_message c name body) in
      let mac = built_mac c name body in
      (
        body,
        commit_body-CommitIsValid h1 m variable v written,
        rw (
          drop-build_message c seq ssrc name body refl,
          read-field 32 m.h2 _ (mac ++ tail) v.h2_length,
          opens,
          parse_commit_message-commit_algos m variable mac tail v reads
              (length-built_mac c name body h1 laws refl),
          read_all (entire_string seq ssrc (build_message c name body)),
        ),
      )
