-- ===== src/Contention/Decision.antt =====
-- The two endpoints of a contention decide alike (src/stateMachine.c).
use bzrtp.Common.{ℕ, Bytes, [], ◌∷◌, length, not, if◌then◌else◌, ◌≡◌, ◌≢◌, refl, arith}
use bzrtp.Packet.Types.{CommitMessage}
use bzrtp.Algo.{keyagreement_prsh}
use bzrtp.Contention.{bytes_lt, becomes_responder, is_non_dhm}

bytes_lt_total :
    (xs ys : Bytes) → length xs ≡ length ys → xs ≢ ys → bytes_lt xs ys ≡ not (bytes_lt ys xs)
unfolding bytes_lt
bytes_lt_total [] [] h ne = absurd (ne refl)
bytes_lt_total [] (y ∷ ys) h ne = absurd (omega arith)
bytes_lt_total (x ∷ xs) [] h ne = absurd (omega arith)
bytes_lt_total (x ∷ xs) (y ∷ ys) h ne = ground (arith, bytes_lt_total xs ys)

-- The values that are compared: nonces in the non-DHM modes, else hvi.
abbrev pub compared : CommitMessage → Bytes
compared m = if is_non_dhm m.key_agreement_algo then m.nonce else m.hvi

-- Two Commits with the same key agreement and different values of one length, and not two PBXs in
-- Preshared mode: just one of the endpoints becomes the responder.
pub becomes_responder_total :
    (a b : CommitMessage) (a_m b_m : ℕ)
    → a.key_agreement_algo ≡ b.key_agreement_algo
    → length (compared a) ≡ length (compared b)
    → compared a ≢ compared b
    → (a.key_agreement_algo ≡ keyagreement_prsh → a_m ≡ 1 → b_m ≢ 1)
    → becomes_responder a b a_m b_m ≡ not (becomes_responder b a b_m a_m)
unfolding becomes_responder
becomes_responder_total a b a_m b_m same len ne pbx =
    ground (arith, bytes_lt_total a.nonce b.nonce, bytes_lt_total a.hvi b.hvi)
