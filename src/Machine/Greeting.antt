-- ===== src/Machine/Greeting.antt =====
-- bzrtp_responseToHelloMessage (src/stateMachine.c): the first Hello of the peer. The algorithms are
-- agreed on, the secrets of the cache are identified, and a DHPart2 is prepared.
use bzrtp.Common.{
  ℕ, Bytes, codes, contains, bytes_eq, take, length, [], ◌∷◌, ◌++◌, Option, none, some, Result, ok,
  err, fault, Error, Bool, ◌&&◌, ◌||◌, not, if◌then◌else◌,
}
use bzrtp.Packet.Types.{MessageType, Packet, HelloMessage, MessageData, hello_data}
use bzrtp.Algo.{keyagreement_mult}
use bzrtp.Algo.Agreement.{Outcome, done, failed}
use bzrtp.Algo.Agreement.Choice.{crypto_algo_agreement}
use bzrtp.Contention.{is_non_dhm}
use bzrtp.Session.{Environment}
use bzrtp.Session.Action.{Action, return, raise, ask, ◌>>=◌, ◌>>◌, modify, require, on_channel}
use bzrtp.Machine.Sending.{
  hello_slot, dhpart_slot, store_self, store_peer, create_and_build, send_created,
}
use bzrtp.Machine.Cache.{get_peer_associated_secrets, compute_secret_hashes, compute_auxsecret_ids}
use bzrtp.Machine.Entering.{is_set}

-- `strncmp(c, id, 16) == 0`, where `id` has 16 bytes and c none that is 0.
unfoldable pub is_client : Bytes → Bytes → Bool
is_client c id =
    let compared = take 16 (c ++ 0 ∷ []) in bytes_eq (take (length compared) id) compared

-- `peerBzrtpVersion`: 1.0, 1.1, or 0 for another library.
unfoldable pub bzrtp_version : Bytes → ℕ
unfolding is_client
bzrtp_version id =
    if is_client (codes "LINPHONE-ZRTPCPP") id || is_client (codes "BZRTP") id
    then 0x010000
    else if is_client (codes "BZRTPv1.1") id
    then 0x010100
    else 0

-- The channel context keeps what was set before an error.
unfoldable pub set_channel : Outcome → Action (Unit {0})
set_channel (done ch) s = (record s { channel = ch }, ok tt)
set_channel (failed ch e) s = (record s { channel = ch }, err e)

unfoldable pub hello_message : Option MessageData → Result HelloMessage
hello_message (some (hello_data m)) = ok m
hello_message _ = fault

-- What the contexts keep of the Hello.
unfoldable pub remember_hello : Packet → HelloMessage → Action (Unit {0})
unfolding bzrtp_version
remember_hello p m = do
  modify λ s. record s { peer_zid = m.zid; peer_h3 = m.h3 }
  store_peer hello_slot (some p)
  modify λ s. record s { peer_bzrtp_version = bzrtp_version m.client_identifier }

-- A channel that is not the main one, with a session key there, is a multistream channel. On the error
-- return the stored packet is freed: what the pointer then refers to is left out here.
unfoldable pub select_mode : Environment → HelloMessage → Action (Unit {0})
select_mode env m = do
  s ← ask λ s. ok s
  if not s.is_main_channel && is_set s.zrtp_sess
      then (if contains keyagreement_mult m.supported_key_agreement
          then (on_channel λ ch. record ch { key_agreement_algo = keyagreement_mult })
          else (do
            store_peer hello_slot none
            raise Error.error_multichannel_not_supported_by_peer))
      else (do
        modify (get_peer_associated_secrets env m.zid)
        compute_secret_hashes env
        compute_auxsecret_ids env)

-- In a DHM mode the DHPart2 is prepared.
unfoldable pub prepare_dhpart : Environment → Action (Unit {0})
prepare_dhpart env = do
  ch ← ask λ s. ok s.channel
  if is_non_dhm ch.key_agreement_algo
      then return tt
      else (do p ← create_and_build env MessageType.dhpart2; store_self dhpart_slot (some p))

unfoldable pub response_to_hello_message : Environment → Packet → Action (Unit {0})
unfolding remember_hello select_mode prepare_dhpart set_channel hello_message
response_to_hello_message env p = do
  m ← ask λ s. hello_message p.message_data
  require (bytes_eq (take 3 m.version) (codes "1.1")) Error.error_unsupported_zrtp_version
  s ← ask λ s. ok s
  set_channel (crypto_algo_agreement s.context s.channel (some m))
  remember_hello p m
  select_mode env m
  prepare_dhpart env
  send_created env MessageType.hello_ack
