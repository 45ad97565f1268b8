-- ===== src/Machine/Staying.antt =====
-- Building, storing, sending and parsing keep the state, and so do the keys (src/stateMachine.c).
use bzrtp.Common.{
  ℕ, Bytes, Option, none, some, Result, ok, err, fault, ◌≡◌, refl, >>=-ok, ok-injective, sym, ap,
  ◌∙◌,
}
use bzrtp.Channel.{Channel}
use bzrtp.Packet.Types.{MessageType, Packet}
use bzrtp.Packet.Send.{Sent}
use bzrtp.Keys.{
  compute_s0_dhm_mode, compute_s0_multistream_mode, derive_keys_from_s0, confirm_keys, dhm_secrets,
  multistream_secrets,
}
use bzrtp.Keys.Derivation.{stored_key}
use bzrtp.Keys.Srtp.{
  compute_srtp_keys, add_sas, describe_algos, assign_keys, derive_srtp_keys_from_s0,
}
use bzrtp.Session.{Environment, Session}
use bzrtp.Machine.Sending.{
  parsed_or_same, parse_anyway, Slot, send_new, send_nothing, send_stored, send_self, send_result,
  build_result, build, create_and_build, send_created, zero_on_error, build_or_return_zero, parse,
  accept_repetition,
}
use bzrtp.Machine.Keeping.{Keeps, keeps, view}
use bzrtp.Machine.Kept.{create_zrtp_packet-Keeps}

send_result-view :
    (keep : Packet → Channel → Channel) (s : Session) (r : Result Sent)
    → view (send_result keep s r).0 ≡ view s
send_result-view keep s (ok r) = refl
send_result-view keep s (err e) = refl
send_result-view keep s fault = refl

pub send_new-Keeps : (env : Environment) (p : Packet) → Keeps (send_new env p)
unfolding Keeps send_new
send_new-Keeps env p s = send_result-view _ s _

-- No packet is stored.
nothing_sent : (f : Option (Bytes → ℕ)) (s : Session) → view (send_nothing f s).0 ≡ view s
unfolding send_nothing
nothing_sent none s = refl
nothing_sent (some f) s = refl

send_stored-view :
    (env : Environment) (slot : Slot) (p : Option Packet) (s : Session)
    → view (send_stored env slot p s).0 ≡ view s
unfolding send_stored
send_stored-view env slot none s = nothing_sent env.send_data s
send_stored-view env slot (some p) s = send_result-view _ s _

pub send_self-Keeps : (env : Environment) (slot : Slot) → Keeps (send_self env slot)
unfolding Keeps send_self
send_self-Keeps env slot s = send_stored-view env slot _ s

build_result-view :
    (s : Session) (r : Result (Channel × Packet)) → view (build_result s r).0 ≡ view s
unfolding build_result
build_result-view s (ok (ch, p)) = refl
build_result-view s (err e) = refl
build_result-view s fault = refl

pub build-Keeps : (env : Environment) (p : Packet) → Keeps (build env p)
unfolding Keeps build
build-Keeps env p s = build_result-view s _

pub create_and_build-Keeps : (env : Environment) (t : MessageType) → Keeps (create_and_build env t)
unfolding create_and_build
create_and_build-Keeps env t = search (keeps, create_zrtp_packet-Keeps, build-Keeps) depth 30

pub send_created-Keeps : (env : Environment) (t : MessageType) → Keeps (send_created env t)
unfolding send_created
send_created-Keeps env t = search (keeps, create_and_build-Keeps, send_new-Keeps) depth 30

zero_on_error-view : (r : Session × Result Packet) → view (zero_on_error r).0 ≡ view r.0
zero_on_error-view (s, ok p) = refl
zero_on_error-view (s, err e) = refl
zero_on_error-view (s, fault) = refl

pub build_or_return_zero-Keeps :
    (env : Environment) (p : Packet) → Keeps (build_or_return_zero env p)
unfolding Keeps build_or_return_zero
build_or_return_zero-Keeps env p s = zero_on_error-view (build env p s) ∙ build-Keeps env p s

pub parse-Keeps :
    (env : Environment) (p : Packet) (input : Bytes) (n : ℕ) → Keeps (parse env p input n)
unfolding parse
parse-Keeps env p input n = search keeps depth 30

pub accept_repetition-Keeps :
    (slot : Slot) (p : Packet) (input : Bytes) → Keeps (accept_repetition slot p input)
unfolding accept_repetition
accept_repetition-Keeps slot p input = search keeps depth 30

parsed_or_same-view :
    (p : Packet) (r : Session × Result Packet) → view (parsed_or_same p r).0 ≡ view r.0
unfolding parsed_or_same
parsed_or_same-view p (s, ok q) = refl
parsed_or_same-view p (s, err e) = refl
parsed_or_same-view p (s, fault) = refl

pub parse_anyway-Keeps :
    (env : Environment) (p : Packet) (input : Bytes) (n : ℕ) → Keeps (parse_anyway env p input n)
unfolding parse_anyway Keeps
parse_anyway-Keeps env p input n s =
    parsed_or_same-view p (parse env p input n s) ∙ parse-Keeps env p input n s

pub ruleset packets_keep = (
  keeps, create_zrtp_packet-Keeps, send_new-Keeps, send_self-Keeps, build-Keeps,
  create_and_build-Keeps, send_created-Keeps, build_or_return_zero-Keeps, parse-Keeps,
  accept_repetition-Keeps, parse_anyway-Keeps,
)

derived_view :
    (env : Environment) (s0 : Bytes) (s t : Session)
    → derive_keys_from_s0 env.crypto s0 s ≡ ok t
    → view t ≡ view s
unfolding derive_keys_from_s0
derived_view env s0 s t h =
    >>=-ok (confirm_keys env.crypto s.channel s0 s.kdf_context) _ h
      λ k made done. ap view (sym (ok-injective done))

pub compute_s0_dhm_mode-view :
    (env : Environment) (s t : Session) → compute_s0_dhm_mode env s ≡ ok t → view t ≡ view s
unfolding compute_s0_dhm_mode
compute_s0_dhm_mode-view env s t h =
    >>=-ok (dhm_secrets env s) _ h λ m made done. derived_view env m.s0 _ t done

pub compute_s0_multistream_mode-view :
    (env : Environment) (s t : Session) → compute_s0_multistream_mode env s ≡ ok t → view t ≡ view s
unfolding compute_s0_multistream_mode
compute_s0_multistream_mode-view env s t h =
    >>=-ok (multistream_secrets env s) _ h λ m made done. derived_view env m.s0 _ t done

pub derive_srtp_keys_from_s0-view :
    (env : Environment) (s t : Session)
    → derive_srtp_keys_from_s0 env.crypto s ≡ ok t
    → view t ≡ view s
unfolding derive_srtp_keys_from_s0
derive_srtp_keys_from_s0-view env s t h = >>=-ok (stored_key s.s0) _ h λ s0 held h.
    >>=-ok (compute_srtp_keys env.crypto s0 s.kdf_context s.channel) _ h λ keys made h.
      >>=-ok
        (add_sas env.crypto s0 s
          (describe_algos s.channel (assign_keys s.channel.role keys s.srtp_secrets)))
        _ h λ p added done. ap view (sym (ok-injective done))
