-- ===== src/Calls/Kept.antt =====
-- What the calls of a user do to the state of a channel and to its flag `isSecure` (src/bzrtp.c).
use bzrtp.Common.{
  Bytes, Option, none, some, Result, ok, err, fault, Bool, true, false, read, if◌then◌else◌, ◌≡◌,
  refl, ◌⊎◌, inl, inr,
}
use bzrtp.Packet.Types.{Packet}
use bzrtp.Packet.Parser.DhPart.{built_message}
use bzrtp.Session.{Environment, Session, not_started, discovery_init}
use bzrtp.Session.Action.{Action, return, ask, ◌>>=◌, ◌>>◌, and_then, modify}
use bzrtp.Machine.Keeping.{Keeps, view, keeps}
use bzrtp.Machine.Answered.{update_cached_secrets-Keeps}
use bzrtp.Calls.{
  Hexadecimal, set_peer_hello_hash, check_stored_hello, compare_hello_hash, hash_string, restart,
  set_auxiliary_shared_secret, delayed_update, sas_verified, reset_sas_verified,
}
use bzrtp.Calls.Restarted.{restart-view}

pub set_auxiliary_shared_secret-Keeps :
    (secret : Bytes) → Keeps (set_auxiliary_shared_secret secret)
unfolding set_auxiliary_shared_secret
set_auxiliary_shared_secret-Keeps secret = search keeps depth 40

delayed_update-Keeps : (env : Environment) → Keeps (delayed_update env)
unfolding delayed_update
delayed_update-Keeps env = search (keeps, update_cached_secrets-Keeps) depth 40

pub sas_verified-Keeps : (env : Environment) → Keeps (sas_verified env)
unfolding sas_verified
sas_verified-Keeps env = search (keeps, delayed_update-Keeps) depth 40

pub reset_sas_verified-Keeps : Keeps reset_sas_verified
unfolding reset_sas_verified
reset_sas_verified-Keeps = search keeps depth 40

-- State and flag stay, or the state is one of a restart.
unfoldable pub MayRestart : Session → Session → Type 0
MayRestart s t =
    (view t ≡ view s)
    ⊎ ((view t ≡ (not_started, s.is_secure)) ⊎ (view t ≡ (discovery_init, s.is_secure)))

ask-MayRestart :
    {A : Type 0} (r : Result A) (f : A → Action (Unit {0})) (s : Session)
    → ((a : A) → MayRestart s (f a s).0)
    → MayRestart s (and_then (s, r) f).0
unfolding MayRestart and_then
ask-MayRestart (ok a) f s k = k a
ask-MayRestart (err e) f s k = inl refl
ask-MayRestart fault f s k = inl refl

if-MayRestart :
    (env : Environment) (same : Bool) (s : Session)
    → MayRestart s ((if same then return tt else restart env) s).0
unfolding MayRestart return
if-MayRestart env true s = inl refl
if-MayRestart env false s = inr (restart-view env s)

compare_hello_hash-MayRestart :
    (env : Environment) (expected : Bytes) (p : Packet) (s : Session)
    → MayRestart s (compare_hello_hash env expected p s).0
unfolding compare_hello_hash ◌>>=◌ ask
compare_hello_hash-MayRestart env expected p s =
    ask-MayRestart (built_message (some p)) _ s
      λ m. ask-MayRestart (read 32 expected) _ s λ cut. if-MayRestart env _ s

check_stored_hello-MayRestart :
    (env : Environment) (expected : Bytes) (p : Option Packet) (s : Session)
    → MayRestart s (check_stored_hello env expected p s).0
unfolding check_stored_hello MayRestart return
check_stored_hello-MayRestart env expected none s = inl refl
check_stored_hello-MayRestart env expected (some p) s =
    compare_hello_hash-MayRestart env expected p s

pub set_peer_hello_hash-MayRestart :
    (env : Environment) (hex : Hexadecimal) (string : Bytes) (s : Session)
    → MayRestart s (set_peer_hello_hash env hex string s).0
unfolding set_peer_hello_hash MayRestart and_then ◌>>=◌ ◌>>◌ ask modify
set_peer_hello_hash-MayRestart env hex string s =
    check_stored_hello-MayRestart env (hex.str_to_uint8 (hash_string string)) _ _
