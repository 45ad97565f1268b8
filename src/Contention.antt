-- ===== src/Contention.antt =====
-- Commit contention: which of two endpoints that both sent a Commit becomes the responder
-- (state_keyAgreement_sendingCommit, src/stateMachine.c).
use bzrtp.Common.{ℕ, Bytes, [], ◌∷◌, Bool, true, false, ◌&&◌, ◌||◌, not, if◌then◌else◌, ◌==◌, ltb}
use bzrtp.Packet.Types.{CommitMessage}
use bzrtp.Algo.{keyagreement_prsh, keyagreement_mult}
pub mod Decision

-- `memcmp(a, b, n) < 0` for two buffers of the same length.
unfoldable pub bytes_lt : Bytes → Bytes → Bool
bytes_lt [] ys = false
bytes_lt (x ∷ xs) [] = false
bytes_lt (x ∷ xs) (y ∷ ys) =
    let rest = bytes_lt xs ys in if ltb x y then true else if x == y then rest else false

-- `keyAgreementAlgo` of the non-DHM modes.
abbrev pub is_non_dhm : ℕ → Bool
is_non_dhm algo = algo == keyagreement_prsh || algo == keyagreement_mult

-- Does self become the responder? The numbers are the flags M of the two Hello messages.
unfoldable pub becomes_responder : CommitMessage → CommitMessage → ℕ → ℕ → Bool
unfolding bytes_lt
becomes_responder self peer self_m peer_m =
    if not (peer.key_agreement_algo == self.key_agreement_algo)
    then not (peer.key_agreement_algo == keyagreement_prsh)
      && self.key_agreement_algo == keyagreement_prsh
    else if peer.key_agreement_algo == keyagreement_prsh && (self_m == 1 || peer_m == 1)
    then self_m == 1
    else if is_non_dhm self.key_agreement_algo
    then bytes_lt self.nonce peer.nonce
    else bytes_lt self.hvi peer.hvi
