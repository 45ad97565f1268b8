-- ===== src/Machine/Edges.antt =====
-- The graph of the states as the comments of include/stateMachine.h draw it, and the actions that
-- follow it.
use bzrtp.Common.{
  Result, ok, err, fault, Bool, true, false, if◌then◌else◌, ◌≡◌, refl, sym, subst, ◌∙◌, ap, ◌⊎◌,
  inl, inr,
}
use bzrtp.Packet.Types.{MessageType}
use bzrtp.Session.{
  Environment, Session, State, discovery_init, discovery_waiting_for_hello,
  discovery_waiting_for_hello_ack, key_agreement_sending_commit,
  key_agreement_responder_sending_dhpart1, key_agreement_initiator_sending_dhpart2,
  confirmation_responder_sending_confirm1, confirmation_initiator_sending_confirm2, secure,
  sending_go_clear, clear,
}
use bzrtp.Session.Action.{Action, and_then, ◌>>=◌, ◌>>◌, modify, change, changed}
use bzrtp.Machine.Entering.{go_to, enter_secure, start_srtp_session}
use bzrtp.Machine.Keeping.{Keeps, view, keeps}

-- "Goes to" and "upon": the messages that lead from a state to another.
pub data Edge : State → MessageType → State → Type 0 where
  hello_first : Edge discovery_init MessageType.hello discovery_waiting_for_hello_ack
  hello_acked : Edge discovery_init MessageType.hello_ack discovery_waiting_for_hello
  hello_last : Edge discovery_waiting_for_hello MessageType.hello key_agreement_sending_commit
  ack_last : Edge discovery_waiting_for_hello_ack MessageType.hello_ack key_agreement_sending_commit
  commit_dhm :
      Edge discovery_waiting_for_hello_ack MessageType.commit
        key_agreement_responder_sending_dhpart1
  commit_non_dhm :
      Edge discovery_waiting_for_hello_ack MessageType.commit
        confirmation_responder_sending_confirm1
  contention_dhm :
      Edge key_agreement_sending_commit MessageType.commit key_agreement_responder_sending_dhpart1
  contention_non_dhm :
      Edge key_agreement_sending_commit MessageType.commit confirmation_responder_sending_confirm1
  dhpart1_dhm :
      Edge key_agreement_sending_commit MessageType.dhpart1 key_agreement_initiator_sending_dhpart2
  confirm1_non_dhm :
      Edge key_agreement_sending_commit MessageType.confirm1 confirmation_initiator_sending_confirm2
  dhpart2_dhm :
      Edge key_agreement_responder_sending_dhpart1 MessageType.dhpart2
        confirmation_responder_sending_confirm1
  confirm1_dhm :
      Edge key_agreement_initiator_sending_dhpart2 MessageType.confirm1
        confirmation_initiator_sending_confirm2
  confirm2_last : Edge confirmation_responder_sending_confirm1 MessageType.confirm2 secure
  conf2_ack_last : Edge confirmation_initiator_sending_confirm2 MessageType.conf2_ack secure
  go_clear_taken : Edge secure MessageType.go_clear clear
  go_clear_acked : Edge sending_go_clear MessageType.clear_ack clear
  clear_dhm : Edge clear MessageType.commit key_agreement_responder_sending_dhpart1
  clear_non_dhm : Edge clear MessageType.commit confirmation_responder_sending_confirm1

-- The flag `isSecure` of the channel in a state that was just entered.
unfoldable pub flag : State → Bool → Bool
flag secure b = true
flag clear b = false
flag _ b = b

-- State and flag stay, or follow an edge for the message.
unfoldable pub Move : MessageType → State × Bool → State × Bool → Type 0
Move t w v = (v ≡ w) ⊎ ((y : State) × Edge w.0 t y × (v ≡ (y, flag y w.1)))

unfoldable pub Moves : {A : Type 0} → MessageType → State → Action A → Type 0
Moves t x m = (s : Session) → s.state_machine ≡ x → Move t (view s) (view (m s).0)

pub Keeps-Moves : {A : Type 0} (t : MessageType) (x : State) (m : Action A) → Keeps m → Moves t x m
unfolding Moves Move Keeps
Keeps-Moves t x m k s h = inl (k s)

and_then-Move :
    {A B : Type 0} (t : MessageType) (x : State) (w : State × Bool) (r : Session × Result A)
    (f : A → Action B)
    → w.0 ≡ x
    → view r.0 ≡ w
    → ((a : A) → Moves t x (f a))
    → Move t w (view (and_then r f).0)
unfolding and_then Moves Move
and_then-Move t x w (s, ok a) f h same k =
    subst (λ v. Move t v (view (f a s).0)) same (k a s (ap (λ v. v.0) same ∙ h))
and_then-Move t x w (s, err e) f h same k = inl same
and_then-Move t x w (s, fault) f h same k = inl same

pub >>=-Moves :
    {A B : Type 0} (t : MessageType) (x : State) (m : Action A) (f : A → Action B)
    → Keeps m
    → ((a : A) → Moves t x (f a))
    → Moves t x (m >>= f)
unfolding Moves ◌>>=◌ Keeps
>>=-Moves t x m f k l s h = and_then-Move t x (view s) (m s) f h (k s) l

pub >>-Moves :
    {A : Type 0} (t : MessageType) (x : State) (m : Action (Unit {0})) (n : Action A)
    → Keeps m
    → Moves t x n
    → Moves t x (m >> n)
unfolding ◌>>◌
>>-Moves t x m n k l = >>=-Moves t x m (λ u. n) k λ u. l

pub if-Moves :
    {A : Type 0} (t : MessageType) (x : State) (b : Bool) (m n : Action A)
    → Moves t x m
    → Moves t x n
    → Moves t x (if b then m else n)
if-Moves t x true m n k l = k
if-Moves t x false m n k l = l

-- A change to a state that is not secure, and the call of that state.
pub go_to-Moves :
    {A : Type 0} (t : MessageType) (x y : State) (n : Action A)
    → Edge x t y
    → ((b : Bool) → flag y b ≡ b)
    → Keeps n
    → Moves t x (go_to y >> n)
unfolding Moves Move Keeps ◌>>=◌ ◌>>◌ and_then modify
go_to-Moves t x y n edge plain k s h = inr (
  y,
  subst (λ z. Edge z t y) (sym h) edge,
  k (record s { state_machine = y }) ∙ ap (λ b. (y, b)) (sym (plain s.is_secure)),
)

pub go_to_last-Moves :
    (t : MessageType) (x y : State) → Edge x t y → ((b : Bool) → flag y b ≡ b) → Moves t x (go_to y)
unfolding Moves Move modify
go_to_last-Moves t x y edge plain s h =
    inr (y, subst (λ z. Edge z t y) (sym h) edge, ap (λ b. (y, b)) (sym (plain s.is_secure)))

-- A change to another state that may fault.
pub change-Moves :
    (t : MessageType) (x y : State) (f : Session → Result Session)
    → Edge x t y
    → ((s r : Session) → f s ≡ ok r → view r ≡ (y, flag y s.is_secure))
    → Moves t x (change f)
unfolding Moves Move change changed
change-Moves t x y f edge k s h = go (f s) refl
  where
    go : (r : Result Session) → f s ≡ r → Move t (view s) (view (changed s r).0)
    go (ok r) e = inr (y, subst (λ z. Edge z t y) (sym h) edge, k s r e)
    go (err e) same = inl refl
    go fault same = inl refl

start_srtp_session-Keeps : (env : Environment) → Keeps (start_srtp_session env)
unfolding start_srtp_session
start_srtp_session-Keeps env = search keeps depth 40

start_srtp_session-view :
    (env : Environment) (s : Session) → view (start_srtp_session env s).0 ≡ view s
unfolding Keeps
start_srtp_session-view env s = start_srtp_session-Keeps env s

-- The change to the secure state.
pub secure-Moves :
    (env : Environment) (t : MessageType) (x : State)
    → Edge x t secure
    → Moves t x (go_to secure >> enter_secure env)
unfolding Moves Move ◌>>=◌ ◌>>◌ and_then modify enter_secure flag
secure-Moves env t x edge s h =
    inr (secure, subst (λ z. Edge z t secure) (sym h) edge, start_srtp_session-view env _)
