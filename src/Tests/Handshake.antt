-- ===== src/Tests/Handshake.antt =====
-- A whole call of two endpoints, step by step: states, SAS and SRTP keys, to be evaluated.
use bzrtp.Common.{ℕ, Bytes, List, [], ◌∷◌, ◌++◌, map, Option, none}
use bzrtp.Channel.{initiator, sha256}
use bzrtp.Session.{Environment, Session, State, Output, sent, not_started}
use bzrtp.Calls.{Hexadecimal}
use bzrtp.Calls.Running.{start, tick, receive, run}
use bzrtp.Tests.Data.{toy, channel}
use bzrtp.Tests.Sessions.{env, session, context}

-- A key agreement in which both sides come to the same secret.
-- Every byte is its own form.
abbrev plain : Hexadecimal
plain = record { int8_to_str = λ b. b; str_to_uint8 = λ b. b }

abbrev call_env : Environment
call_env = record env {
  key_exchange = record env.key_exchange {
    compute_secret = λ algo k pv. toy.hash sha256 (k ++ pv) 32;
  };
}

abbrev endpoint : ℕ → ℕ → Session
endpoint zid ssrc = session not_started (context zid) 0 (record (channel initiator) {
  self_ssrc = ssrc;
  hash_algo = 0;
  hash_length = 0;
  cipher_algo = 0;
  cipher_key_length = 0;
  auth_tag_algo = 0;
  key_agreement_algo = 0;
  sas_algo = 0;
  hash_function = none;
  hmac_function = none;
  cipher_function = none;
  mackeyi = none;
  mackeyr = none;
  zrtpkeyi = none;
  zrtpkeyr = none;
})

abbrev datagrams : List Output → List Bytes
datagrams [] = []
datagrams (sent d ∷ os) = d ∷ datagrams os
datagrams (_ ∷ os) = datagrams os

abbrev quiet : Session → Session
quiet s = record s { outputs = [] }

-- The second endpoint takes what the first has sent.
abbrev deliver : Session → Session → Session
deliver a b = run call_env plain (map (λ d. receive d) (datagrams a.outputs)) (quiet b)

abbrev a0 : Session
a0 = run call_env plain (start ∷ tick 0 ∷ []) (endpoint 1 1)

abbrev b0 : Session
b0 = run call_env plain (start ∷ tick 0 ∷ []) (endpoint 2 2)

abbrev b1 : Session
b1 = deliver a0 b0

abbrev a1 : Session
a1 = deliver b0 a0

abbrev a2 : Session
a2 = deliver b1 a1

abbrev b2 : Session
b2 = deliver a2 b1

abbrev a3 : Session
a3 = deliver b2 a2

abbrev b3 : Session
b3 = deliver a3 b2

abbrev a4 : Session
a4 = deliver b3 a3

abbrev b4 : Session
b4 = deliver a4 b3

abbrev a5 : Session
a5 = deliver b4 a4

abbrev states : List State
states =
    a2.state_machine ∷ b2.state_machine ∷ a3.state_machine ∷ b3.state_machine ∷ a4.state_machine
    ∷ b4.state_machine ∷ a5.state_machine ∷ []

abbrev keys : List Bytes
keys =
    a5.srtp_secrets.self_srtp_key ∷ b4.srtp_secrets.peer_srtp_key ∷ a5.srtp_secrets.peer_srtp_key
    ∷ b4.srtp_secrets.self_srtp_key ∷ []

abbrev sas : Option Bytes × Option Bytes
sas = (a5.srtp_secrets.sas, b4.srtp_secrets.sas)
