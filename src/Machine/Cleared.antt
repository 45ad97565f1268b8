-- ===== src/Machine/Cleared.antt =====
-- What brings a secure channel into the clear state by a GoClear of the peer (src/stateMachine.c).
use bzrtp.Common.{
  Bytes, [], length, leb, none, some, take, drop, read, Result, ok, err, fault, Error, >>=-ok,
  ok-injective, bytes_eq, bytes_eq_iff, Bool, true, false, Bool-cases, if◌then◌else◌, ◌==◌, ◌≡◌,
  ◌≢◌, refl, sym, ap, ◌∙◌, subst, inl, inr, arith,
}
use bzrtp.Packet.Types.{MessageType, Packet, go_clear_data}
use bzrtp.Packet.Check.{Checked}
use bzrtp.Packet.Parser.{packet_parser, parse_as, parse_go_clear}
use bzrtp.Timer.{Timer}
use bzrtp.Session.{Environment, Session, State, secure, sending_go_clear, clear}
use bzrtp.Session.Action.{
  Action, raise, return, ask, require, change, changed, ◌>>=◌, ◌>>◌, and_then,
}
use bzrtp.Machine.Sending.{send_created, parse, parse_anyway, parsed_or_same}
use bzrtp.Machine.Destruction.{
  expected_clear_mac, clear_mac_of, go_clear, destroy_key_material, new_zrtp_sess,
}
use bzrtp.Machine.Clear.{check_clear_mac, take_go_clear, sending_go_clear_on}
use bzrtp.Machine.Confirmation.{secure_on}
use bzrtp.Machine.Driving.{on_message}
use bzrtp.Machine.Keeping.{Keeps, view}
use bzrtp.Machine.Edges.{
  Edge, Move, Moves, hello_first, hello_acked, hello_last, ack_last, commit_dhm, commit_non_dhm,
  contention_dhm, contention_non_dhm, dhpart1_dhm, confirm1_non_dhm, dhpart2_dhm, confirm1_dhm,
  confirm2_last, conf2_ack_last, go_clear_taken, go_clear_acked, clear_dhm, clear_non_dhm,
}
use bzrtp.Machine.Progress.{on_message-Moves}
use bzrtp.Machine.Staying.{send_created-Keeps}
use bzrtp.Machine.Clearing.{check_clear_mac-Keeps}

-- No key of the channel is left, and it is not marked secure.
unfoldable pub IsDestroyed : Session → Type 0
IsDestroyed s =
    (s.is_secure ≡ false)
    × (s.s0 ≡ none)
    × (s.channel.mackeyi ≡ none)
    × (s.channel.mackeyr ≡ none)
    × (s.channel.zrtpkeyi ≡ none)
    × (s.channel.zrtpkeyr ≡ none)
    × (s.srtp_secrets.self_srtp_key ≡ [])
    × (s.srtp_secrets.peer_srtp_key ≡ [])
    × (s.srtp_secrets.sas ≡ none)

go_clear-IsDestroyed :
    (env : Environment) (timer : Session → Timer) (s r : Session)
    → go_clear env timer s ≡ ok r
    → IsDestroyed r
unfolding go_clear destroy_key_material IsDestroyed
go_clear-IsDestroyed env timer s r h =
    >>=-ok (new_zrtp_sess env (destroy_key_material s)) _ h λ sess _ h.
      subst IsDestroyed (ok-injective h) (refl, refl, refl, refl, refl, refl, refl, refl, refl)

-- What a chain of actions that gets to the clear state has got through.
Reaches : {A : Type 0} → Session × Result A → (A → Action (Unit {0})) → Type 0
Reaches {A} r f =
    (a : A) × (r.1 ≡ ok a) × ((and_then r f).0 ≡ (f a r.0).0) × ((f a r.0).0.state_machine ≡ clear)

and_then-Reaches :
    {A : Type 0} (r : Session × Result A) (f : A → Action (Unit {0}))
    → r.0.state_machine ≢ clear
    → (and_then r f).0.state_machine ≡ clear
    → Reaches r f
unfolding and_then Reaches
and_then-Reaches (s, ok a) f before after = (a, refl, refl, after)
and_then-Reaches (s, err e) f before after = absurd (before after)
and_then-Reaches (s, fault) f before after = absurd (before after)

changed-IsDestroyed :
    (env : Environment) (timer : Session → Timer) (s : Session)
    → s.state_machine ≢ clear
    → (change (go_clear env timer) s).0.state_machine ≡ clear
    → IsDestroyed (change (go_clear env timer) s).0
unfolding change changed
changed-IsDestroyed env timer s before after = go (go_clear env timer s) refl after
  where
    go :
        (r : Result Session)
        → go_clear env timer s ≡ r
        → (changed s r).0.state_machine ≡ clear
        → IsDestroyed (changed s r).0
    go (ok r) e after = go_clear-IsDestroyed env timer s r e
    go (err e) same after = absurd (before after)
    go fault same after = absurd (before after)

-- The MAC in the datagram is the one of the peer.
unfoldable pub HasPeerMac : Environment → Checked → Session → Type 0
HasPeerMac env c s = expected_clear_mac env.crypto s.channel ≡ ok (take 8 (drop 24 c.input))

require-ok : (b : Bool) (e : Error) (s : Session) → (require b e s).1 ≡ ok tt → b ≡ true
unfolding require return raise
require-ok true e s h = refl
require-ok false e s h = cc

abbrev parsed_go_clear : Checked → Packet
parsed_go_clear c = record c.packet {
  message_data = some (go_clear_data (record { clear_mac = take 8 (drop 24 c.input) }));
}

parse_anyway-go_clear :
    (env : Environment) (c : Checked) (s : Session)
    → c.packet.message_type ≡ MessageType.go_clear
    → parse_anyway env c.packet c.input c.input_length s
      ≡ (if leb 8 (length (drop 24 c.input)) then (s, ok (parsed_go_clear c)) else (s, fault))
unfolding parse_anyway parsed_or_same parse packet_parser parse_as parse_go_clear read ask
parse_anyway-go_clear env c s t = elim (Bool-cases (leb 8 (length (drop 24 c.input)))) [
  | inl fits ↦ rw (t, fits) refl
  | inr short ↦ rw (t, short) refl
]

-- The comparison after the parse.
abbrev compared : Environment → Packet → Action (Unit {0})
compared env p = ask (λ s. expected_clear_mac env.crypto s.channel) >>= λ expected.
    ask (λ s. clear_mac_of p.message_data) >>= λ mac.
    require (bytes_eq mac expected) Error.error_invalid_clear_mac

compared-ok :
    (env : Environment) (c : Checked) (s : Session)
    → (compared env (parsed_go_clear c) s).1 ≡ ok tt
    → HasPeerMac env c s
unfolding HasPeerMac clear_mac_of ask ◌>>=◌ and_then
compared-ok env c s h = go (expected_clear_mac env.crypto s.channel) h
  where
    go :
        (x : Result Bytes)
        → (and_then
            (s, x)
            (λ expected.
              require
                (bytes_eq (take 8 (drop 24 c.input)) expected)
                Error.error_invalid_clear_mac)).1
          ≡ ok tt
        → x ≡ ok (take 8 (drop 24 c.input))
    go (ok expected) h = ap ok (sym ((bytes_eq_iff _ expected).0 (require-ok _ _ s h)))
    go (err e) h = cc
    go fault h = cc

check_clear_mac-HasPeerMac :
    (env : Environment) (c : Checked) (s : Session)
    → c.packet.message_type ≡ MessageType.go_clear
    → (check_clear_mac env c s).1 ≡ ok tt
    → HasPeerMac env c s
unfolding check_clear_mac ◌>>=◌ and_then
check_clear_mac-HasPeerMac env c s t h =
    go (leb 8 (length (drop 24 c.input)))
      (subst (λ r. (and_then r (compared env)).1 ≡ ok tt) (parse_anyway-go_clear env c s t) h)
  where
    go :
        (fits : Bool)
        → (and_then (if fits then (s, ok (parsed_go_clear c)) else (s, fault)) (compared env)).1
          ≡ ok tt
        → HasPeerMac env c s
    go true h = compared-ok env c s h
    go false h = cc

secure_kept :
    (s t : Session) → view t ≡ view s → s.state_machine ≡ secure → t.state_machine ≡ secure
secure_kept s t same here = ap (λ w. w.0) same ∙ here

not_clear : (s : Session) → s.state_machine ≡ secure → s.state_machine ≢ clear
not_clear s here there = cc

not_both : (s : Session) → s.state_machine ≡ sending_go_clear → s.state_machine ≢ clear
not_both s here there = cc

take_go_clear-IsDestroyed :
    (env : Environment) (c : Checked) (s : Session)
    → s.state_machine ≡ secure
    → c.packet.message_type ≡ MessageType.go_clear
    → (take_go_clear env c s).0.state_machine ≡ clear
    → HasPeerMac env c s × IsDestroyed (take_go_clear env c s).0
unfolding take_go_clear ◌>>=◌ ◌>>◌ Reaches Keeps
take_go_clear-IsDestroyed env c s here t after =
    let s1 = (check_clear_mac env c s).0 in
    let here1 : s1.state_machine ≡ secure = secure_kept s s1 (check_clear_mac-Keeps env c s) here in
    let (u, e1, at1, after1) =
      and_then-Reaches (check_clear_mac env c s) _ (not_clear s1 here1) after in
    let s2 = (send_created env MessageType.clear_ack s1).0 in
    let here2 : s2.state_machine ≡ secure =
      secure_kept s1 s2 (send_created-Keeps env MessageType.clear_ack s1) here1 in
    let (v, e2, at2, after2) =
      and_then-Reaches (send_created env MessageType.clear_ack s1) _ (not_clear s2 here2) after1 in
    (
      check_clear_mac-HasPeerMac env c s t e1,
      subst IsDestroyed (sym (at1 ∙ at2))
          (changed-IsDestroyed env _ s2 (not_clear s2 here2) after2),
    )

secure-IsDestroyed :
    (env : Environment) (c : Checked) (s : Session)
    → s.state_machine ≡ secure
    → c.packet.message_type ≡ MessageType.go_clear
    → (secure_on env c MessageType.go_clear s).0.state_machine ≡ clear
    → (s.context.self_accept_go_clear ≢ 0)
      × HasPeerMac env c s
      × IsDestroyed (secure_on env c MessageType.go_clear s).0
unfolding secure_on ask raise ◌>>=◌ and_then
secure-IsDestroyed env c s here t after = go (s.context.self_accept_go_clear == 0) refl after
  where
    go :
        (refuses : Bool)
        → (s.context.self_accept_go_clear == 0) ≡ refuses
        → ((if refuses then raise Error.parser_error_unexpected_message else take_go_clear env c)
            s).0.state_machine
          ≡ clear
        → (s.context.self_accept_go_clear ≢ 0)
          × HasPeerMac env c s
          × IsDestroyed
              ((if s.context.self_accept_go_clear == 0
                  then raise Error.parser_error_unexpected_message
                  else take_go_clear env c)
                s).0
    go true e after = absurd (not_clear s here after)
    go false e after =
        let accepts : s.context.self_accept_go_clear ≢ 0 = λ h. ground (arith, h, e) in
        let (mac, gone) = take_go_clear-IsDestroyed env c s here t after in
        (accepts, mac, rw e gone)

-- How a channel gets into the clear state: by a GoClear with the MAC of the peer where this endpoint
-- accepts it, or by a ClearACK where it has asked for it.
pub data IsClearedBy (env : Environment) (c : Checked) (s : Session)
    : State → MessageType → Type 0 where
  by_peer :
      s.context.self_accept_go_clear ≢ 0
      → HasPeerMac env c s
      → IsClearedBy env c s secure MessageType.go_clear
  by_ack : IsClearedBy env c s sending_go_clear MessageType.clear_ack

data LeadsToClear : State → MessageType → Type 0 where
  taken : LeadsToClear secure MessageType.go_clear
  acked : LeadsToClear sending_go_clear MessageType.clear_ack

Edge-LeadsToClear : (x y : State) (t : MessageType) → Edge x t y → y ≡ clear → LeadsToClear x t
Edge-LeadsToClear x y t hello_first h = cc
Edge-LeadsToClear x y t hello_acked h = cc
Edge-LeadsToClear x y t hello_last h = cc
Edge-LeadsToClear x y t ack_last h = cc
Edge-LeadsToClear x y t commit_dhm h = cc
Edge-LeadsToClear x y t commit_non_dhm h = cc
Edge-LeadsToClear x y t contention_dhm h = cc
Edge-LeadsToClear x y t contention_non_dhm h = cc
Edge-LeadsToClear x y t dhpart1_dhm h = cc
Edge-LeadsToClear x y t confirm1_non_dhm h = cc
Edge-LeadsToClear x y t dhpart2_dhm h = cc
Edge-LeadsToClear x y t confirm1_dhm h = cc
Edge-LeadsToClear x y t confirm2_last h = cc
Edge-LeadsToClear x y t conf2_ack_last h = cc
Edge-LeadsToClear x y t go_clear_taken h = taken
Edge-LeadsToClear x y t go_clear_acked h = acked
Edge-LeadsToClear x y t clear_dhm h = cc
Edge-LeadsToClear x y t clear_non_dhm h = cc

Move-LeadsToClear :
    (t : MessageType) (w v : State × Bool)
    → Move t w v
    → w.0 ≢ clear
    → v.0 ≡ clear
    → LeadsToClear w.0 t
unfolding Move
Move-LeadsToClear t w v (inl same) before after = absurd (before (sym (ap (λ z. z.0) same) ∙ after))
Move-LeadsToClear t w v (inr (y, edge, there)) before after =
    Edge-LeadsToClear w.0 y t edge (sym (ap (λ z. z.0) there) ∙ after)

cleared-IsDestroyed :
    (env : Environment) (c : Checked) (s : Session) (x : State) (t : MessageType)
    → LeadsToClear x t
    → s.state_machine ≡ x
    → c.packet.message_type ≡ t
    → (on_message env x c t s).0.state_machine ≡ clear
    → IsClearedBy env c s x t × IsDestroyed (on_message env x c t s).0
unfolding on_message sending_go_clear_on
cleared-IsDestroyed env c s _ _ taken here type after =
    let (accepts, mac, gone) = secure-IsDestroyed env c s here type after in
    (by_peer accepts mac, gone)
cleared-IsDestroyed env c s _ _ acked here type after =
    (by_ack, changed-IsDestroyed env _ s (λ there. not_both s here there) after)

-- A message that brings a channel from another state into the clear state is a GoClear in the secure
-- state, with the MAC that the peer makes of "GoClear " under its key of the channel, where this endpoint
-- accepts GoClear, or a ClearACK in the state that sends a GoClear. After it s0, the keys of the channel
-- and the SRTP keys are destroyed, and the channel is not marked secure.
pub on_message-IsDestroyed :
    (env : Environment) (c : Checked) (s : Session)
    → s.state_machine ≢ clear
    → (on_message env s.state_machine c c.packet.message_type s).0.state_machine ≡ clear
    → IsClearedBy env c s s.state_machine c.packet.message_type
      × IsDestroyed (on_message env s.state_machine c c.packet.message_type s).0
unfolding Moves
on_message-IsDestroyed env c s before after =
    let t = c.packet.message_type in
    let leads =
      Move-LeadsToClear t _ _ (on_message-Moves env s.state_machine c t s refl) before after in
    cleared-IsDestroyed env c s s.state_machine t leads refl refl after
