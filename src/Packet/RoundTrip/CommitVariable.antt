-- ===== src/Packet/RoundTrip/CommitVariable.antt =====
-- The part of a Commit that depends on its key agreement, written and read back
-- (src/packetParser.c).
use bzrtp.Common.{
  Bytes, length, read-append, replicate, [], ◌++◌, append_assoc, ok, ◌==◌, false, ◌≡◌, sym,
}
use bzrtp.Packet.Types.{CommitMessage}
use bzrtp.Algo.{keyagreement_prsh, keyagreement_mult}
use bzrtp.Algo.Lengths.{KemSizes}
use bzrtp.Packet.Parser.Commit.{
  CommitVariable, read_variable, read_prsh, read_mult, read_dh, commit_pv_length,
}
use bzrtp.Packet.Builder.Bodies.{commit_variable}
use bzrtp.Packet.RoundTrip.Frame.{read_all}

-- The fields of a message; those that its key agreement does not send are zero, as created.
pub data VariableIsValid (pk ct : KemSizes) (m : CommitMessage) : Type 0 where
  prsh_fields :
      m.key_agreement_algo ≡ keyagreement_prsh
      → length m.nonce ≡ 16
      → length m.key_id ≡ 8
      → m.hvi ≡ replicate 32 0
      → m.pv ≡ []
      → VariableIsValid pk ct m
  mult_fields :
      m.key_agreement_algo ≡ keyagreement_mult
      → length m.nonce ≡ 16
      → m.key_id ≡ replicate 8 0
      → m.hvi ≡ replicate 32 0
      → m.pv ≡ []
      → VariableIsValid pk ct m
  dh_fields :
      (m.key_agreement_algo == keyagreement_prsh) ≡ false
      → (m.key_agreement_algo == keyagreement_mult) ≡ false
      → length m.hvi ≡ 32
      → m.nonce ≡ replicate 16 0
      → m.key_id ≡ replicate 8 0
      → length m.pv ≡ commit_pv_length pk ct m.key_agreement_algo
      → VariableIsValid pk ct m

abbrev pub fields_of : CommitMessage → CommitVariable
fields_of m = record { nonce = m.nonce; key_id = m.key_id; hvi = m.hvi; pv = m.pv }

-- Some bytes are written for the fields, and read back as the fields, whatever follows them.
unfoldable pub WritesVariable : KemSizes → KemSizes → CommitMessage → Type 0
WritesVariable pk ct m =
    (variable : Bytes) × (commit_variable pk ct m ≡ ok variable)
    × ((tail : Bytes)
        → read_variable pk ct m.key_agreement_algo (variable ++ tail) ≡ ok (fields_of m, tail))

prsh-WritesVariable :
    (pk ct : KemSizes) (m : CommitMessage)
    → m.key_agreement_algo ≡ keyagreement_prsh
    → length m.nonce ≡ 16
    → length m.key_id ≡ 8
    → m.hvi ≡ replicate 32 0
    → m.pv ≡ []
    → WritesVariable pk ct m
unfolding WritesVariable read_variable read_prsh commit_variable
prsh-WritesVariable pk ct m e n k h p = (
  m.nonce ++ m.key_id,
  rw (e),
  λ tail. rw (
    e,
    append_assoc m.nonce m.key_id tail,
    read-append 16 m.nonce (m.key_id ++ tail) n,
    read-append 8 m.key_id tail k,
    h,
    p,
  ),
)

mult-WritesVariable :
    (pk ct : KemSizes) (m : CommitMessage)
    → m.key_agreement_algo ≡ keyagreement_mult
    → length m.nonce ≡ 16
    → m.key_id ≡ replicate 8 0
    → m.hvi ≡ replicate 32 0
    → m.pv ≡ []
    → WritesVariable pk ct m
unfolding WritesVariable read_variable read_mult commit_variable
mult-WritesVariable pk ct m e n k h p =
    (m.nonce, rw (e), λ tail. rw (e, read-append 16 m.nonce tail n, k, h, p))

dh-WritesVariable :
    (pk ct : KemSizes) (m : CommitMessage)
    → (m.key_agreement_algo == keyagreement_prsh) ≡ false
    → (m.key_agreement_algo == keyagreement_mult) ≡ false
    → length m.hvi ≡ 32
    → m.nonce ≡ replicate 16 0
    → m.key_id ≡ replicate 8 0
    → length m.pv ≡ commit_pv_length pk ct m.key_agreement_algo
    → WritesVariable pk ct m
unfolding WritesVariable read_variable read_dh commit_variable
dh-WritesVariable pk ct m np nm h n k p = (
  m.hvi ++ m.pv,
  rw (np, nm, sym p, read_all m.pv),
  λ tail. rw (
    np,
    nm,
    append_assoc m.hvi m.pv tail,
    read-append 32 m.hvi (m.pv ++ tail) h,
    read-append (commit_pv_length pk ct m.key_agreement_algo) m.pv tail p,
    n,
    k,
  ),
)

pub VariableIsValid-WritesVariable :
    (pk ct : KemSizes) (m : CommitMessage) → VariableIsValid pk ct m → WritesVariable pk ct m
VariableIsValid-WritesVariable pk ct m (prsh_fields e n k h p) =
    prsh-WritesVariable pk ct m e n k h p
VariableIsValid-WritesVariable pk ct m (mult_fields e n k h p) =
    mult-WritesVariable pk ct m e n k h p
VariableIsValid-WritesVariable pk ct m (dh_fields np nm h n k p) =
    dh-WritesVariable pk ct m np nm h n k p
