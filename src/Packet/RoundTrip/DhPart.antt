-- ===== src/Packet/RoundTrip/DhPart.antt =====
-- A DHPart that is built is parsed back by an endpoint that agreed on the same algorithms and accepts
-- its hash chain (src/packetParser.c).
use bzrtp.Common.{
  ℕ, ◌+◌, ◌%◌, ◌<◌, Bytes, length, read-append, ◌++◌, some, ok, ==_false, ==_refl, ◌≡◌, ◌≢◌, refl,
  arith, sym,
}
use bzrtp.Packet.Types.{MessageType, DhPartMessage, dhpart_data}
use bzrtp.Channel.{Crypto, CryptoLaws, Channel}
use bzrtp.Algo.Lengths.{KemSizes, compute_key_agreement_public_value_length}
use bzrtp.Packet.Delivery.{entire_string, received_packet}
use bzrtp.Packet.Parser.DhPart.{
  parse_dhpart, parse_dhpart_message, check_dhpart_chain, dhpart_message,
}
use bzrtp.Packet.Builder.{build_message}
use bzrtp.Packet.Builder.Bodies.{Body, dhpart_body}
use bzrtp.Packet.RoundTrip.Reading.{read-field}
use bzrtp.Packet.RoundTrip.Frame.{
  trailer, drop-build_message, read_all, built_mac, length-built_mac,
}

module _ (pk ct : KemSizes) (algo : ℕ) (t : MessageType) where
  abbrev pub pv_length : ℕ
  pv_length = compute_key_agreement_public_value_length pk ct algo (dhpart_message t)

  -- A DHPart whose arrays have their C lengths, and whose public value has the length that the agreed
  -- algorithm, which is a known one, asks for.
  pub record DhPartIsValid (m : DhPartMessage) : Type 0 where
    pub h1_length : length m.h1 ≡ 32
    pub rs1_length : length m.rs1_id ≡ 8
    pub rs2_length : length m.rs2_id ≡ 8
    pub auxsecret_length : length m.auxsecret_id ≡ 8
    pub pbxsecret_length : length m.pbxsecret_id ≡ 8
    pub pv_fits : length m.pv ≡ pv_length
    pub known : pv_length ≢ 0
    pub small : pv_length < 65000

  parse_dhpart_message-append :
      (m : DhPartMessage) (mac rest : Bytes)
      → DhPartIsValid m
      → length mac ≡ 8
      → parse_dhpart_message pv_length m.h1 (
          (m.rs1_id ++ (m.rs2_id ++ (m.auxsecret_id ++ (m.pbxsecret_id ++ m.pv)))) ++ (mac ++ rest))
        ≡ ok (record m { mac = mac })
  unfolding parse_dhpart_message
  parse_dhpart_message-append m mac rest v h = rw (
    read-field 8 m.rs1_id _ (mac ++ rest) v.rs1_length,
    read-field 8 m.rs2_id _ (mac ++ rest) v.rs2_length,
    read-field 8 m.auxsecret_id _ (mac ++ rest) v.auxsecret_length,
    read-field 8 m.pbxsecret_id _ (mac ++ rest) v.pbxsecret_length,
    read-append pv_length m.pv (mac ++ rest) v.pv_fits,
    read-append 8 mac rest h,
  )

  -- The body that is written for a valid message.
  abbrev pub valid_body : Bytes → DhPartMessage → Body
  valid_body h0 m = record {
    message_length = 84 + pv_length;
    content = m.h1 ++ (m.rs1_id ++ (m.rs2_id ++ (m.auxsecret_id ++ (m.pbxsecret_id ++ m.pv))));
    mac_key = some h0;
  }

  dhpart_body-DhPartIsValid :
      (h0 : Bytes) (m : DhPartMessage)
      → DhPartIsValid m
      → dhpart_body pk ct h0 algo (dhpart_message t) m ≡ ok (valid_body h0 m)
  unfolding dhpart_body
  dhpart_body-DhPartIsValid h0 m v =
      let small : (84 + length m.pv) % 65536 ≡ 84 + length m.pv =
        omega (arith, v.small, v.pv_fits) in
      rw (==_false pv_length 0 v.known, sym v.pv_fits, read_all m.pv, small)

  -- A valid DHPart that is built and sent is parsed as the same message, with its MAC, by a peer that
  -- agreed on the same key agreement and to which its H1 proves what it must prove.
  pub parse_dhpart-build_message :
      (c : Crypto) (laws : CryptoLaws c) (h0 name : Bytes) (m : DhPartMessage) (peer : Channel)
      (seq ssrc : ℕ)
      → DhPartIsValid m
      → length name ≡ 8
      → peer.key_agreement_algo ≡ algo
      → let input = entire_string seq ssrc (build_message c name (valid_body h0 m)) in
        let p = received_packet seq ssrc t (84 + pv_length) in
        check_dhpart_chain c peer peer.role input p m.h1 ≡ ok tt
        → (dhpart_body pk ct h0 algo (dhpart_message t) m ≡ ok (valid_body h0 m))
          × (parse_dhpart pk ct c peer input (length input) p
              ≡ ok (record p {
                message_data =
                    some (dhpart_data (record m { mac = built_mac c name (valid_body h0 m) }));
                packet_string = some input;
              }))
  unfolding parse_dhpart
  parse_dhpart-build_message c laws h0 name m peer seq ssrc v h8 same proved =
      let body = valid_body h0 m in
      let tail = trailer seq ssrc (build_message c name body) in
      let mac = built_mac c name body in
      (
        dhpart_body-DhPartIsValid h0 m v,
        rw (
          same,
          ==_false pv_length 0 v.known,
          ==_refl (84 + pv_length),
          drop-build_message c seq ssrc name body h8,
          read-field 32 m.h1 _ (mac ++ tail) v.h1_length,
          proved,
          parse_dhpart_message-append m mac tail v (length-built_mac c name body h0 laws refl),
          read_all (entire_string seq ssrc (build_message c name body)),
        ),
      )
