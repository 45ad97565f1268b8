-- ===== src/Machine/UserEvents.antt =====
-- The events of GoClear that a user gives to the state machine (src/bzrtp.c, src/stateMachine.c).
use bzrtp.Common.{Bool-cases, not, ◌==◌, ◌≡◌, refl, ◌⊎◌, inl, inr}
use bzrtp.Session.{
  Environment, Session, State, key_agreement_sending_commit,
  key_agreement_responder_sending_dhpart1, secure, sending_go_clear, clear,
}
use bzrtp.Session.Action.{ask, return, raise, require, modify, ◌>>=◌, ◌>>◌, and_then}
use bzrtp.Machine.Clear.{
  UserEvent, go_clear_event, accept_go_clear_event, back_to_secure_event, secure_on_event,
  clear_on_event,
}
use bzrtp.Machine.Driving.{on_user_event, send_go_clear, counted_event}
use bzrtp.Machine.Keeping.{Keeps, view}
use bzrtp.Machine.Entered.{enter_sending_commit-Keeps}
use bzrtp.Machine.Progress.{has_dhpart-Keeps}
use bzrtp.Machine.Clearing.{enter_sending_go_clear-Keeps}

-- Where an event of the user leads: "when user pressed a button".
pub data Wish : State → UserEvent → State → Type 0 where
  goes_clear : Wish secure go_clear_event sending_go_clear
  goes_back : Wish clear back_to_secure_event key_agreement_sending_commit

-- State and flag stay, or the state is where the event leads.
unfoldable pub MayFollow : UserEvent → Session → Session → Type 0
MayFollow e s t =
    (view t ≡ view s) ⊎ ((y : State) × Wish s.state_machine e y × (view t ≡ (y, s.is_secure)))

secure_on_event-MayFollow :
    (env : Environment) (e : UserEvent) (s : Session)
    → s.state_machine ≡ secure
    → MayFollow e s (secure_on_event env e s).0
unfolding MayFollow secure_on_event Keeps ask return raise require modify ◌>>=◌ ◌>>◌ and_then
secure_on_event-MayFollow env go_clear_event s h =
    elim (Bool-cases (not (s.peer_accept_go_clear == 0))) [
      | inl accepts ↦ rw accepts (
          inr (
            sending_go_clear,
            rw h goes_clear,
            enter_sending_go_clear-Keeps env (record s { state_machine = sending_go_clear }),
          ))
      | inr refuses ↦ rw refuses (inl refl)
    ]
secure_on_event-MayFollow env accept_go_clear_event s h = inl refl
secure_on_event-MayFollow env back_to_secure_event s h = inl refl

clear_on_event-MayFollow :
    (env : Environment) (e : UserEvent) (s : Session)
    → s.state_machine ≡ clear
    → MayFollow e s (clear_on_event env e s).0
unfolding MayFollow clear_on_event Keeps ask return raise require modify ◌>>=◌ ◌>>◌ and_then
clear_on_event-MayFollow env go_clear_event s h = inl refl
clear_on_event-MayFollow env accept_go_clear_event s h = inl refl
clear_on_event-MayFollow env back_to_secure_event s h =
    inr (key_agreement_sending_commit, rw h goes_back, enter_sending_commit-Keeps env _)

on_user_event-MayFollow :
    (env : Environment) (x : State) (e : UserEvent) (s : Session)
    → s.state_machine ≡ x
    → MayFollow e s (on_user_event env x e s).0
unfolding on_user_event MayFollow return Keeps
on_user_event-MayFollow env key_agreement_responder_sending_dhpart1 e s h = inl (has_dhpart-Keeps s)
on_user_event-MayFollow env secure e s h = secure_on_event-MayFollow env e s h
on_user_event-MayFollow env clear e s h = clear_on_event-MayFollow env e s h
on_user_event-MayFollow env _ e s h = inl refl

pub send_go_clear-MayFollow :
    (env : Environment) (s : Session) → MayFollow go_clear_event s (send_go_clear env s).0
unfolding send_go_clear ask ◌>>=◌ and_then
send_go_clear-MayFollow env s = on_user_event-MayFollow env s.state_machine go_clear_event s refl

pub counted_event-MayFollow :
    (env : Environment) (e : UserEvent) (s : Session) → MayFollow e s (counted_event env e s).0
unfolding counted_event ask modify ◌>>=◌ ◌>>◌ and_then MayFollow
counted_event-MayFollow env e s = on_user_event-MayFollow env s.state_machine e _ refl
