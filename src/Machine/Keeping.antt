-- ===== src/Machine/Keeping.antt =====
-- Actions that leave the state function and the flag `isSecure` of a channel as they are: all that a
-- state function does, but for the calls of the next state (src/stateMachine.c).
use bzrtp.Common.{
  ℕ, Result, ok, err, fault, Error, Bool, true, false, if◌then◌else◌, ◌≡◌, refl, ◌∙◌,
}
use bzrtp.Channel.{Channel}
use bzrtp.Session.{Output, Session, State, Environment}
use bzrtp.Session.Action.{
  Action, and_then, return, raise, ask, ◌>>=◌, ◌>>◌, modify, change, changed, require, on_channel,
  output, draw,
}

abbrev pub view : Session → State × Bool
view s = (s.state_machine, s.is_secure)

unfoldable pub Keeps : {A : Type 0} → Action A → Type 0
Keeps m = (s : Session) → view (m s).0 ≡ view s

and_then-view :
    {A B : Type 0} (r : Session × Result A) (f : A → Action B)
    → ((a : A) → Keeps (f a))
    → view (and_then r f).0 ≡ view r.0
unfolding Keeps and_then ◌>>=◌ ◌>>◌ return ask raise modify require draw change
and_then-view (s, ok a) f k = k a s
and_then-view (s, err e) f k = refl
and_then-view (s, fault) f k = refl

pub >>=-Keeps :
    {A B : Type 0} (m : Action A) (f : A → Action B)
    → Keeps m
    → ((a : A) → Keeps (f a))
    → Keeps (m >>= f)
unfolding Keeps and_then ◌>>=◌ ◌>>◌ return ask raise modify require draw change
>>=-Keeps m f k l s = and_then-view (m s) f l ∙ k s

pub >>-Keeps :
    {A : Type 0} (m : Action (Unit {0})) (n : Action A) → Keeps m → Keeps n → Keeps (m >> n)
unfolding ◌>>◌
>>-Keeps m n k l = >>=-Keeps m (λ u. n) k λ u. l

pub raise-Keeps : (A : Type 0) (e : Error) → Keeps (raise {A = A} e)
unfolding Keeps raise
raise-Keeps A e s = refl

pub if-Keeps :
    {A : Type 0} (t : Bool) (m n : Action A) → Keeps m → Keeps n → Keeps (if t then m else n)
if-Keeps true m n k l = k
if-Keeps false m n k l = l

pub require-Keeps : (t : Bool) (e : Error) → Keeps (require t e)
unfolding Keeps and_then ◌>>=◌ ◌>>◌ return ask raise modify require draw change
require-Keeps true e s = refl
require-Keeps false e s = refl

pub draw-Keeps : (env : Environment) (n : ℕ) → Keeps (draw env n)
unfolding Keeps and_then ◌>>=◌ ◌>>◌ return ask raise modify require draw change
draw-Keeps env n s = refl

pub ask-Keeps : {A : Type 0} (f : Session → Result A) → Keeps (ask f)
unfolding Keeps and_then ◌>>=◌ ◌>>◌ return ask raise modify require draw change
ask-Keeps f s = refl

pub return-Keeps : {A : Type 0} (a : A) → Keeps (return a)
unfolding Keeps and_then ◌>>=◌ ◌>>◌ return ask raise modify require draw change
return-Keeps a s = refl

pub modify-Keeps :
    (f : Session → Session) → ((s : Session) → view (f s) ≡ view s) → Keeps (modify f)
unfolding Keeps and_then ◌>>=◌ ◌>>◌ return ask raise modify require draw change
modify-Keeps f k s = k s

changed-view :
    (s : Session) (r : Result Session)
    → ((t : Session) → r ≡ ok t → view t ≡ view s)
    → view (changed s r).0 ≡ view s
unfolding changed
changed-view s (ok t) k = k t refl
changed-view s (err e) k = refl
changed-view s fault k = refl

pub change-Keeps :
    (f : Session → Result Session)
    → ((s t : Session) → f s ≡ ok t → view t ≡ view s)
    → Keeps (change f)
unfolding Keeps change
change-Keeps f k s = changed-view s (f s) (k s)

pub on_channel-Keeps : (f : Channel → Channel) → Keeps (on_channel f)
unfolding Keeps modify
on_channel-Keeps f s = refl

pub output-Keeps : (o : Output) → Keeps (output o)
unfolding Keeps modify
output-Keeps o s = refl

pub ruleset keeps = (
  >>=-Keeps, >>-Keeps, if-Keeps, require-Keeps, draw-Keeps, ask-Keeps, return-Keeps, raise-Keeps,
  modify-Keeps, on_channel-Keeps, output-Keeps,
)
