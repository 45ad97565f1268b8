-- ===== src/Packet/Parser/Accepted.antt =====
-- What follows for the sender when bzrtp_packetParser accepts a Commit, a DHPart or a Confirm
-- (src/packetParser.c).
use bzrtp.Common.{
  ℕ, ◌+◌, Bytes, drop, read, Option, some, ok, >>=-ok, guard-ok, length, ok-injective, ◌==◌, ==_iff,
  true, not, ◌≡◌, ◌≢◌, refl, sym, ap, subst, arith,
}
use bzrtp.Packet.Types.{Packet, CommitMessage, DhPartMessage, commit_data, dhpart_data}
use bzrtp.Algo.{Family}
use bzrtp.Packet.Parser.Reading.{read_algo, message_bytes, check_hello, stored_commit}
use bzrtp.Packet.Parser.Authentic.{OpensHello, OpensCommit, check_hello-eq-ok}
use bzrtp.Packet.Parser.Commit.{parse_commit, parse_commit_message, read_variable}
use bzrtp.Packet.Parser.DhPart.{built_message, compute_hvi}
use bzrtp.Algo.Lengths.{KemSizes, compute_commit_message_variable_length}
use bzrtp.Channel.{Crypto, Channel, Role, initiator, responder, sha256}

known_size : (n : ℕ) → not (n == 0) ≡ true → n ≢ 0
known_size n h e = ground arith

-- A message of n bytes whose H2 and key agreement are those of m.
Fits : KemSizes → ℕ → Bytes → CommitMessage → Type 0
Fits pk n h2 m =
    (m.h2 ≡ h2)
    × (n ≡ 84 + compute_commit_message_variable_length pk m.key_agreement_algo)
    × (compute_commit_message_variable_length pk m.key_agreement_algo ≢ 0)

module _ (pk ct : KemSizes) where
  parse_commit_message-Fits :
      (n : ℕ) (h2 content : Bytes) {m : CommitMessage}
      → parse_commit_message pk ct n h2 content ≡ ok m
      → Fits pk n h2 m
  unfolding parse_commit_message Fits
  parse_commit_message-Fits n h2 content h = >>=-ok (read 12 content) _ h λ a₁ _ h.
      >>=-ok (read_algo Family.hash_type a₁.1) _ h λ a₂ _ h.
        >>=-ok (read_algo Family.cipherblock_type a₂.1) _ h λ a₃ _ h.
          >>=-ok (read_algo Family.authtag_type a₃.1) _ h λ a₄ _ h.
            >>=-ok (read_algo Family.keyagreement_type a₄.1) _ h λ a₅ _ h.
              let size = compute_commit_message_variable_length pk a₅.0 in
              guard-ok (not (size == 0)) _ _ h λ known h. guard-ok (n == 84 + size) _ _ h λ fits h.
                >>=-ok (read_algo Family.sas_type a₅.1) _ h λ a₆ _ h.
                  >>=-ok (read_variable pk ct a₅.0 a₆.1) _ h λ a₇ _ h.
                    >>=-ok (read 8 a₇.1) _ h λ a₈ _ h.
                      subst (Fits pk n h2) (ok-injective h)
                        (refl, (==_iff _ _).0 fits, known_size size known)

  -- The packet q holds a Commit whose H2 opens the Hello in the store, and whose key agreement is known
  -- and has the length of the packet p.
  unfoldable pub IsCommitFrom : Crypto → Option Packet → Packet → Packet → Type 0
  IsCommitFrom c peer_hello p q =
      (m : CommitMessage) × (q.message_data ≡ some (commit_data m))
      × OpensHello c peer_hello m.h2
      × (p.message_length ≡ 84 + compute_commit_message_variable_length pk m.key_agreement_algo)
      × (compute_commit_message_variable_length pk m.key_agreement_algo ≢ 0)

  -- A Commit is accepted only from the endpoint that sent the stored Hello: it reveals the H2 behind
  -- that Hello's H3, and H2 opens the Hello's MAC. Its key agreement is known and fits its length.
  pub parse_commit_authentic :
      (c : Crypto) (peer_hello : Option Packet) (input : Bytes) (n : ℕ) (p : Packet) {q : Packet}
      → parse_commit pk ct c peer_hello input n p ≡ ok q
      → IsCommitFrom c peer_hello p q
  unfolding parse_commit Fits IsCommitFrom
  parse_commit_authentic c peer_hello input n p h = >>=-ok (read 32 (drop 24 input)) _ h λ r _ h.
      >>=-ok (check_hello c peer_hello r.0) _ h λ _ opens h.
        >>=-ok (parse_commit_message pk ct p.message_length r.0 r.1) _ h λ m made h.
          >>=-ok (read n input) _ h λ _ _ h.
            let (same, size, known) = parse_commit_message-Fits p.message_length r.0 r.1 made in
            (
              m,
              ap (λ (q : Packet). q.message_data) (sym (ok-injective h)),
              subst (OpensHello c peer_hello) (sym same) (check_hello-eq-ok c peer_hello r.0 opens),
              size,
              known,
            )

  -- The hvi of the stored Commit is the agreed hash of this DHPart2 and the own Hello.
  unfoldable pub CommitsTo : Crypto → Channel → Bytes → Packet → Type 0
  CommitsTo c ch input p =
      (q : Packet) × (commit : CommitMessage) × (dhpart : Bytes) × (hello : Bytes) × (stored_commit
          ch.peer_packets.commit
        ≡ ok (q, commit))
      × (message_bytes p.message_length input ≡ ok dhpart)
      × (built_message ch.self_packets.hello ≡ ok hello)
      × (compute_hvi c ch.hash_function dhpart hello ≡ ok commit.hvi)

  -- What a DHPart proves to the responder and to the initiator.
  unfoldable pub DhPartProof : Crypto → Channel → Role → Bytes → Packet → Bytes → Type 0
  DhPartProof c ch responder input p h1 =
      OpensCommit c ch.peer_packets.commit h1 × CommitsTo c ch input p
  DhPartProof c ch initiator input p h1 = OpensHello c ch.peer_packets.hello (c.hash sha256 h1 32)

  -- The packet q holds a DHPart whose H1 proves what it must prove, with a public value of the length of
  -- the packet p.
  unfoldable pub IsDhPartFrom : Crypto → Channel → Bytes → Packet → Packet → Type 0
  IsDhPartFrom c ch input p q =
      (m : DhPartMessage) × (q.message_data ≡ some (dhpart_data m))
      × DhPartProof c ch ch.role input p m.h1
      × (p.message_length ≡ 84 + length m.pv)
      × (length m.pv ≢ 0)
