-- ===== src/Machine/Runs.antt =====
-- Runs of a channel: any calls of a user, in any order and with any datagrams (src/bzrtp.c,
-- src/stateMachine.c).
use bzrtp.Common.{
  Bytes, List, [], ◌∷◌, Bool, true, false, not, ◌||◌, ◌≡◌, refl, sym, subst, inl, inr,
}
use bzrtp.Packet.Types.{MessageType}
use bzrtp.Session.{Environment, Session, State, not_started, discovery_init, secure}
use bzrtp.Session.Action.{modify}
use bzrtp.Machine.Keeping.{Keeps, view}
use bzrtp.Machine.Edges.{
  Edge, flag, Move, hello_first, hello_acked, hello_last, ack_last, commit_dhm, commit_non_dhm,
  contention_dhm, contention_non_dhm, dhpart1_dhm, confirm1_non_dhm, dhpart2_dhm, confirm1_dhm,
  confirm2_last, conf2_ack_last, go_clear_taken, go_clear_acked, clear_dhm, clear_non_dhm,
}
use bzrtp.Machine.Driven.{started-view, iterate_channel-Keeps, process_message-Move}
use bzrtp.Machine.Clear.{UserEvent, go_clear_event, accept_go_clear_event, back_to_secure_event}
use bzrtp.Machine.UserEvents.{
  Wish, goes_clear, goes_back, MayFollow, send_go_clear-MayFollow, counted_event-MayFollow,
}
use bzrtp.Calls.{Hexadecimal}
use bzrtp.Calls.Running.{
  Call, start, tick, receive, peer_hello_hash, auxiliary_shared_secret, timer_reset, verified,
  not_verified, ask_go_clear, confirm_go_clear, back_to_secure_mode, perform, run,
}
use bzrtp.Calls.Kept.{
  MayRestart, set_peer_hello_hash-MayRestart, set_auxiliary_shared_secret-Keeps, sas_verified-Keeps,
  reset_sas_verified-Keeps,
}

-- The event that a call gives to the state machine.
pub data Gives : Call → UserEvent → Type 0 where
  gives_go_clear : Gives ask_go_clear go_clear_event
  gives_accept : Gives confirm_go_clear accept_go_clear_event
  gives_back : Gives back_to_secure_mode back_to_secure_event

-- A path for some calls: from before the start to the first state, along an edge of the graph with a
-- datagram, along one with an event of the user, or back to the begin when the hash of the peer's Hello
-- is set. Any call may stay where it is.
pub data Route : State → List Call → State → Type 0 where
  here : {x : State} → Route x [] x
  stays :
      {x z : State} {call : Call} {calls : List Call} → Route x calls z → Route x (call ∷ calls) z
  begins :
      {z : State} {calls : List Call}
      → Route discovery_init calls z
      → Route not_started (start ∷ calls) z
  goes :
      {x y z : State} {t : MessageType} {input : Bytes} {calls : List Call}
      → Edge x t y
      → Route y calls z
      → Route x (receive input ∷ calls) z
  turns :
      {x y z : State} {e : UserEvent} {call : Call} {calls : List Call}
      → Gives call e
      → Wish x e y
      → Route y calls z
      → Route x (call ∷ calls) z
  resets :
      {x z : State} {string : Bytes} {calls : List Call}
      → Route not_started calls z
      → Route x (peer_hello_hash string ∷ calls) z
  restarts :
      {x z : State} {string : Bytes} {calls : List Call}
      → Route discovery_init calls z
      → Route x (peer_hello_hash string ∷ calls) z

abbrev pub is_secure_state : State → Bool
is_secure_state secure = true
is_secure_state _ = false

-- The flag `isSecure` of the channel is set in the secure state.
unfoldable pub IsCoherent : State × Bool → Type 0
IsCoherent w = (not (is_secure_state w.0) || w.1) ≡ true

-- What a call does to state and flag.
data Step : State × Bool → Call → State × Bool → Type 0 where
  stays : {w : State × Bool} {call : Call} → Step w call w
  starts : {b : Bool} → Step (not_started, b) start (discovery_init, b)
  moves :
      {x y : State} {b : Bool} {t : MessageType} {input : Bytes}
      → Edge x t y
      → Step (x, b) (receive input) (y, flag y b)
  turns :
      {x y : State} {b : Bool} {e : UserEvent} {call : Call}
      → Gives call e
      → Wish x e y
      → Step (x, b) call (y, b)
  resets :
      {x : State} {b : Bool} {string : Bytes}
      → Step (x, b) (peer_hello_hash string) (not_started, b)
  restarts :
      {x : State} {b : Bool} {string : Bytes}
      → Step (x, b) (peer_hello_hash string) (discovery_init, b)

Move-Step :
    (t : MessageType) (input : Bytes) (w v : State × Bool) → Move t w v → Step w (receive input) v
unfolding Move
Move-Step t input w v (inl same) = subst (λ z. Step w (receive input) z) (sym same) Step.stays
Move-Step t input w v (inr (y, edge, there)) =
    subst (λ z. Step w (receive input) z) (sym there) (moves edge)

Keeps-Step : (w v : State × Bool) (call : Call) → v ≡ w → Step w call v
Keeps-Step w v call same = subst (λ z. Step w call z) (sym same) Step.stays

MayRestart-Step :
    (s t : Session) (string : Bytes)
    → MayRestart s t
    → Step (view s) (peer_hello_hash string) (view t)
unfolding MayRestart
MayRestart-Step s t string (inl same) = Keeps-Step _ _ _ same
MayRestart-Step s t string (inr (inl there)) =
    subst (λ z. Step (view s) (peer_hello_hash string) z) (sym there) Step.resets
MayRestart-Step s t string (inr (inr there)) =
    subst (λ z. Step (view s) (peer_hello_hash string) z) (sym there) Step.restarts

MayFollow-Step :
    (e : UserEvent) (call : Call) (s t : Session)
    → Gives call e
    → MayFollow e s t
    → Step (view s) call (view t)
unfolding MayFollow
MayFollow-Step e call s t g (inl same) = Keeps-Step _ _ _ same
MayFollow-Step e call s t g (inr (y, wish, there)) =
    subst (λ z. Step (view s) call z) (sym there) (Step.turns g wish)

perform-Step :
    (env : Environment) (hex : Hexadecimal) (call : Call) (s : Session)
    → Step (view s) call (view (perform env hex call s).0)
unfolding perform Keeps modify
perform-Step env hex start s = elim (started-view env s) [
  | inl same ↦ Keeps-Step _ _ _ same
  | inr (first, there) ↦
      subst (λ z. Step (view s) start z) (sym there)
        (subst (λ x. Step (x, s.is_secure) start (discovery_init, s.is_secure)) (sym first) starts)
]
perform-Step env hex (tick time) s = Keeps-Step _ _ _ (iterate_channel-Keeps env time s)
perform-Step env hex (receive input) s =
    let (t, move) = process_message-Move env input s in Move-Step t input _ _ move
perform-Step env hex (peer_hello_hash string) s =
    MayRestart-Step s _ string (set_peer_hello_hash-MayRestart env hex string s)
perform-Step env hex (auxiliary_shared_secret secret) s =
    Keeps-Step _ _ _ (set_auxiliary_shared_secret-Keeps secret s)
perform-Step env hex timer_reset s = Step.stays
perform-Step env hex verified s = Keeps-Step _ _ _ (sas_verified-Keeps env s)
perform-Step env hex not_verified s = Keeps-Step _ _ _ (reset_sas_verified-Keeps s)
perform-Step env hex ask_go_clear s =
    MayFollow-Step _ _ _ _ gives_go_clear (send_go_clear-MayFollow env s)
perform-Step env hex confirm_go_clear s =
    MayFollow-Step _ _ _ _ gives_accept (counted_event-MayFollow env _ s)
perform-Step env hex back_to_secure_mode s =
    MayFollow-Step _ _ _ _ gives_back (counted_event-MayFollow env _ s)

Edge-IsCoherent : (x y : State) (t : MessageType) (b : Bool) → Edge x t y → IsCoherent (y, flag y b)
unfolding flag IsCoherent
Edge-IsCoherent x y t b hello_first = refl
Edge-IsCoherent x y t b hello_acked = refl
Edge-IsCoherent x y t b hello_last = refl
Edge-IsCoherent x y t b ack_last = refl
Edge-IsCoherent x y t b commit_dhm = refl
Edge-IsCoherent x y t b commit_non_dhm = refl
Edge-IsCoherent x y t b contention_dhm = refl
Edge-IsCoherent x y t b contention_non_dhm = refl
Edge-IsCoherent x y t b dhpart1_dhm = refl
Edge-IsCoherent x y t b confirm1_non_dhm = refl
Edge-IsCoherent x y t b dhpart2_dhm = refl
Edge-IsCoherent x y t b confirm1_dhm = refl
Edge-IsCoherent x y t b confirm2_last = refl
Edge-IsCoherent x y t b conf2_ack_last = refl
Edge-IsCoherent x y t b go_clear_taken = refl
Edge-IsCoherent x y t b go_clear_acked = refl
Edge-IsCoherent x y t b clear_dhm = refl
Edge-IsCoherent x y t b clear_non_dhm = refl

Wish-IsCoherent : (x y : State) (e : UserEvent) (b : Bool) → Wish x e y → IsCoherent (y, b)
unfolding IsCoherent
Wish-IsCoherent x y e b goes_clear = refl
Wish-IsCoherent x y e b goes_back = refl

Step-IsCoherent : (w v : State × Bool) (call : Call) → Step w call v → IsCoherent w → IsCoherent v
unfolding IsCoherent
Step-IsCoherent w v call Step.stays c = c
Step-IsCoherent w v call starts c = refl
Step-IsCoherent w v call (moves edge) c = Edge-IsCoherent _ _ _ _ edge
Step-IsCoherent w v call (Step.turns g wish) c = Wish-IsCoherent _ _ _ _ wish
Step-IsCoherent w v call Step.resets c = refl
Step-IsCoherent w v call Step.restarts c = refl

-- A channel whose flag `isSecure` is set if it is in the secure state still has such a flag after any
-- calls, GoClear and a restart for a wrong hash of the Hello included.
pub run-IsCoherent :
    (env : Environment) (hex : Hexadecimal) (calls : List Call) (s : Session)
    → IsCoherent (view s)
    → IsCoherent (view (run env hex calls s))
unfolding run
run-IsCoherent env hex [] s c = c
run-IsCoherent env hex (call ∷ calls) s c =
    run-IsCoherent env hex calls (perform env hex call s).0
      (Step-IsCoherent _ _ call (perform-Step env hex call s) c)
