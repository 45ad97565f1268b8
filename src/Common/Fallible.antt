-- ===== src/Common/Fallible.antt =====
-- What a fallible function of the library gives: a value, one of its error codes, or a fault, which
-- stands for an access outside a buffer or through a NULL pointer (undefined in C).
use Prim.Native.Nat.{ℕ}
use mathlib.Core.Path.{◌≡◌, refl, ap}
use mathlib.Core.Bool.{Bool, true, false}
use bzrtp.Common.Tests.{if◌then◌else◌}

-- The error codes of include/packetParser.h, include/stateMachine.h, include/bzrtp/bzrtp.h and
-- include/cryptoUtils.h.
pub data Error : Type 0 where
  parser_error_invalid_crc parser_error_invalid_packet parser_error_out_of_order : Error
  parser_error_invalid_message parser_error_invalid_context : Error
  parser_error_unmatching_confirm_mac parser_error_unmatching_hash_chain : Error
  parser_error_unmatching_mac parser_error_unexpected_message : Error
  parser_error_unmatching_hvi parser_info_packet_fragment : Error
  builder_error_invalid_packet builder_error_invalid_message : Error
  builder_error_invalid_message_type builder_error_invalid_context : Error
  builder_error_unable_to_fragment builder_error_unknown : Error
  error_invalid_clear_mac error_peer_doesnt_accept_go_clear : Error
  error_invalid_context error_hello_hash_mismatch error_unmatching_packet_repetition : Error
  error_unsupported_zrtp_version error_invalid_argument : Error
  cryptoagreement_invalid_context cryptoagreement_invalid_message : Error
  cryptoagreement_no_common_algo_found cryptoagreement_invalid_cipher : Error
  cryptoagreement_invalid_hash cryptoagreement_invalid_auth_tag cryptoagreement_invalid_sas : Error
  create_error_invalid_message_type create_error_unable_to_create_crypto_context : Error
  create_error_invalid_context error_multichannel_not_supported_by_peer : Error
  error_context_not_ready error_unable_to_add_channel error_unable_to_start_channel : Error
  error_channel_already_started error_output_buffer_length : Error
  -- What the callback bzrtp_sendData returned, where it is not 0.
  send_data_returned : ℕ → Error

pub data Result {ℓ} (A : Type ℓ) : Type ℓ where
  fault : Result A
  err : Error → Result A
  ok : A → Result A

-- `if (!test) return e;`
abbrev pub guard : Bool → Error → Result (Unit {0})
guard test e = if test then ok tt else err e

infixl 5 ◌>>=◌
abbrev pub ◌>>=◌ {κ ℓ} : {X : Type κ} {Y : Type ℓ} → Result X → (X → Result Y) → Result Y
fault >>= next = fault
err code >>= next = err code
ok value >>= next = next value

infixl 5 ◌>>◌
abbrev pub ◌>>◌ {κ} : {Y : Type κ} → Result (Unit {0}) → Result Y → Result Y
checked >> next = checked >>= λ done. next

-- A bind that succeeds, for a proof that goes on from the value of its first part.
pub >>=-ok {κ ℓ μ} :
    {X : Type κ} {Y : Type ℓ} {P : Type μ} (first : Result X) (next : X → Result Y) {y : Y}
    → (first >>= next) ≡ ok y
    → ((x : X) → first ≡ ok x → next x ≡ ok y → P)
    → P
>>=-ok fault next h goal = cc
>>=-ok (err code) next h goal = cc
>>=-ok (ok x) next h goal = goal x refl h

-- The parts of a bind that succeeds.
pub >>=-parts {κ ℓ} :
    {X : Type κ} {Y : Type ℓ} (first : Result X) (next : X → Result Y) {y : Y}
    → (first >>= next) ≡ ok y
    → (x : X) × (first ≡ ok x) × (next x ≡ ok y)
>>=-parts first next h = >>=-ok first next h λ x p q. (x, p, q)

-- A guard that succeeds.
pub guard-true : (test : Bool) (e : Error) {u : Unit {0}} → guard test e ≡ ok u → test ≡ true
guard-true true e h = refl
guard-true false e h = cc

-- The same, past a test.
pub guard-ok {κ μ} :
    {Y : Type κ} {P : Type μ} (test : Bool) (e : Error) (next : Result Y) {y : Y}
    → (guard test e >> next) ≡ ok y
    → (test ≡ true → next ≡ ok y → P)
    → P
guard-ok true e next h goal = goal refl h
guard-ok false e next h goal = cc

ok_value {ℓ} : {A : Type ℓ} → A → Result A → A
ok_value d (ok a) = a
ok_value d (err e) = d
ok_value d fault = d

pub ok-injective {ℓ} : {A : Type ℓ} {a b : A} → ok a ≡ ok b → a ≡ b
unfolding ok_value
ok-injective {a = a} h = ap (ok_value a) h

pub if-eq-ok {ℓ} :
    {A : Type ℓ} (b : Bool) {x r : A} → (if b then ok x else fault) ≡ ok r → (b ≡ true) × (x ≡ r)
if-eq-ok true h = (refl, ok-injective h)
if-eq-ok false h = cc
