-- ===== src/Packet/RoundTrip/Confirm.antt =====
-- A Confirm that is built is decrypted and parsed back by a peer that has the same keys and accepts its
-- hash chain (src/packetParser.c).
use bzrtp.Common.{
  ℕ, ◌+◌, ◌*◌, ◌≤◌, Bytes, length, length-append, read-append, ◌++◌, none, some, ok, ltb-true,
  bytes_eq_refl, ◌≡◌, arith, ◌∙◌,
}
use bzrtp.Packet.Types.{MessageType, ConfirmMessage, confirm_data}
use bzrtp.Channel.{Crypto, CryptoLaws, Channel, HashFunction, CipherFunction}
use bzrtp.Packet.Delivery.{entire_string, received_packet}
use bzrtp.Packet.Parser.Confirm.{
  parse_confirm, check_h0, call_hmac, call_decrypt, key_of, peer_mackey, peer_zrtpkey,
  cipher_text_length, without_dhpart,
}
use bzrtp.Packet.Builder.{build_message, mac_of}
use bzrtp.Packet.Builder.Bodies.{Body}
use bzrtp.Packet.Builder.Confirm.{
  confirm_body, confirm_plain, confirm_tail, signature_string, call_encrypt, self_zrtpkey,
  self_mackey,
}
use bzrtp.Packet.RoundTrip.Reading.{read-field}
use bzrtp.Packet.RoundTrip.Frame.{trailer, drop-build_message, read_all}
use bzrtp.Packet.RoundTrip.ConfirmPlain.{
  ConfirmIsValid, WritesSignature, SignatureIsValid-WritesSignature,
  parse_confirm_plain-confirm_plain,
}

-- The two channels took the same functions, and what one holds as its own keys is what the other
-- holds as the peer's.
pub record SharesKeys (self peer : Channel) : Type 0 where
  pub key : Bytes
  pub mackey : Bytes
  pub hmac_as : HashFunction
  pub cipher_as : CipherFunction
  pub self_key : self_zrtpkey self.role self ≡ some key
  pub peer_key : peer_zrtpkey peer.role peer ≡ some key
  pub self_mac_key : self_mackey self.role self ≡ some mackey
  pub peer_mac_key : peer_mackey peer.role peer ≡ some mackey
  pub self_hmac : self.hmac_function ≡ some hmac_as
  pub peer_hmac : peer.hmac_function ≡ some hmac_as
  pub self_cipher : self.cipher_function ≡ some cipher_as
  pub peer_cipher : peer.cipher_function ≡ some cipher_as
  pub self_hash_length : self.hash_length ≡ length mackey
  pub peer_hash_length : peer.hash_length ≡ length mackey

module _ (c : Crypto) (laws : CryptoLaws c) (self peer : Channel)
    (keys : SharesKeys self peer) where
  abbrev cipher_text : ConfirmMessage → Bytes → Bytes
  cipher_text m signature = c.encrypt keys.cipher_as keys.key m.cfb_iv (confirm_plain m signature)

  abbrev confirm_mac : ConfirmMessage → Bytes → Bytes
  confirm_mac m signature = c.hmac keys.hmac_as keys.mackey (cipher_text m signature) 8

  abbrev valid_confirm_body : ConfirmMessage → Bytes → Body
  valid_confirm_body m signature = record {
    message_length = 76 + m.sig_len * 4;
    content = confirm_mac m signature ++ (m.cfb_iv ++ cipher_text m signature);
    mac_key = none;
  }

  call_hmac-SharesKeys :
      (x : Bytes)
      → (call_hmac c self keys.mackey x ≡ ok (c.hmac keys.hmac_as keys.mackey x 8))
        × (call_hmac c peer keys.mackey x ≡ ok (c.hmac keys.hmac_as keys.mackey x 8))
  unfolding call_hmac
  call_hmac-SharesKeys x = (
    rw (keys.self_hmac, keys.self_hash_length, read_all keys.mackey),
    rw (keys.peer_hmac, keys.peer_hash_length, read_all keys.mackey),
  )

  confirm_body-SharesKeys :
      (m : ConfirmMessage) (signature : Bytes)
      → ConfirmIsValid m
      → signature_string m ≡ ok signature
      → confirm_body c self m ≡ ok (valid_confirm_body m signature)
  unfolding confirm_body key_of call_encrypt
  confirm_body-SharesKeys m signature v e = rw (
    keys.self_key,
    keys.self_mac_key,
    ltb-true (76 + m.sig_len * 4) 65536 (omega (arith, v.sig_len_bits)),
    e,
    keys.self_cipher,
    (call_hmac-SharesKeys (cipher_text m signature)).0,
  )

  -- The length of the cipher text is what the receiver makes of the message length.
  length-cipher_text :
      (m : ConfirmMessage) (signature : Bytes)
      → ConfirmIsValid m
      → length signature ≡ 4 * m.sig_len
      → length (cipher_text m signature) ≡ cipher_text_length (76 + m.sig_len * 4)
  unfolding confirm_plain
  length-cipher_text m signature v s =
      let e = laws.length-encrypt keys.cipher_as keys.key m.cfb_iv (confirm_plain m signature) in
      e
      ∙ omega (arith, length-append m.h0 (confirm_tail m signature), v.h0_length, s, v.sig_len_bits)

  -- The body that is written for the message is parsed back by the peer as the message, with its MAC.
  unfoldable pub ConfirmArrives : Bytes → ConfirmMessage → MessageType → ℕ → ℕ → Type 0
  ConfirmArrives name m t seq ssrc =
      (body : Body) × (mac : Bytes) × (confirm_body c self m ≡ ok body)
      × (let input = entire_string seq ssrc (build_message c name body) in
          let p = received_packet seq ssrc t body.message_length in
          parse_confirm c peer input (length input) p
          ≡ ok (record p {
            message_data = some (confirm_data (record m { confirm_mac = mac }));
            packet_string = some input;
          }))

  -- A valid Confirm that is built and sent is parsed as the same message, with its MAC, by a peer that
  -- shares the keys and to which its H0 proves what it must prove.
  pub parse_confirm-build_message :
      (name : Bytes) (m : ConfirmMessage) (t : MessageType) (seq ssrc : ℕ)
      → ConfirmIsValid m
      → length name ≡ 8
      → check_h0 c peer (without_dhpart peer) peer.role m.h0 ≡ ok tt
      → ConfirmArrives name m t seq ssrc
  unfolding parse_confirm key_of call_decrypt WritesSignature mac_of ConfirmArrives
  parse_confirm-build_message name m t seq ssrc v h8 proved =
      let (signature, written, size, reads) = SignatureIsValid-WritesSignature m v.signature in
      let body = valid_confirm_body m signature in
      let mac = confirm_mac m signature in
      let input = entire_string seq ssrc (build_message c name body) in
      let tail = trailer seq ssrc (build_message c name body) in
      let (rest, front, parsed) = parse_confirm_plain-confirm_plain m mac signature v reads in
      let small : 8 ≤ 32 = omega arith in
      (
        body,
        mac,
        confirm_body-SharesKeys m signature v written,
        rw (
          keys.peer_key,
          keys.peer_mac_key,
          drop-build_message c seq ssrc name body h8,
          read-field 8 mac _ tail
              (laws.length-hmac keys.hmac_as keys.mackey (cipher_text m signature) 8 small),
          read-field 16 m.cfb_iv _ tail v.iv_length,
          read-append (cipher_text_length (76 + m.sig_len * 4)) (cipher_text m signature) tail
              (length-cipher_text m signature v size),
          (call_hmac-SharesKeys (cipher_text m signature)).1,
          bytes_eq_refl mac,
          keys.peer_cipher,
          laws.decrypt-encrypt keys.cipher_as keys.key m.cfb_iv (confirm_plain m signature),
          front,
          proved,
          parsed,
          read_all input,
        ),
      )
