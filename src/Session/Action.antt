-- ===== src/Session/Action.antt =====
-- A step of the state machine: it changes the session and returns 0, an error code or a fault. What it
-- changed before an error stays changed.
use bzrtp.Common.{ℕ, ◌+◌, Bytes, [], ◌∷◌, ◌++◌, Result, ok, err, fault, Error, Bool, if◌then◌else◌}
use bzrtp.Channel.{Channel}
use bzrtp.Session.{Session, Output, Environment}

abbrev pub Action : Type 0 → Type 0
Action A = Session → Session × Result A

module _ {A : Type 0} where
  unfoldable pub return : A → Action A
  return a s = (s, ok a)

  unfoldable pub raise : Error → Action A
  raise e s = (s, err e)

  -- A function that reads the session, or NULL pointers in it.
  unfoldable pub ask : (Session → Result A) → Action A
  ask f s = (s, f s)

unfoldable pub and_then : {A B : Type 0} → Session × Result A → (A → Action B) → Session × Result B
and_then (s, ok a) f = f a s
and_then (s, err e) f = (s, err e)
and_then (s, fault) f = (s, fault)

infixl 5 ◌>>=◌ ◌>>◌
unfoldable pub ◌>>=◌ : {A B : Type 0} → Action A → (A → Action B) → Action B
◌>>=◌ first next s = and_then (first s) next

unfoldable pub ◌>>◌ : {B : Type 0} → Action (Unit {0}) → Action B → Action B
first >> second = first >>= λ done. second

unfoldable pub modify : (Session → Session) → Action (Unit {0})
modify f s = (f s, ok tt)

-- A change that may fault, which then leaves nothing behind.
unfoldable pub changed : Session → Result Session → Session × Result (Unit {0})
changed s (ok t) = (t, ok tt)
changed s (err e) = (s, err e)
changed s fault = (s, fault)

unfoldable pub change : (Session → Result Session) → Action (Unit {0})
unfolding changed
change f s = changed s (f s)

unfoldable pub require : Bool → Error → Action (Unit {0})
require test e = if test then return tt else raise e

-- A change of the channel context.
abbrev pub on_channel : (Channel → Channel) → Action (Unit {0})
on_channel f = modify λ s. record s { channel = f s.channel }

abbrev pub output : Output → Action (Unit {0})
output o = modify λ s. record s { outputs = s.outputs ++ o ∷ [] }

-- bctbx_rng_get.
unfoldable pub draw : Environment → ℕ → Action Bytes
draw env n s = (record s { draws = s.draws + 1 }, ok (env.random s.draws n))
