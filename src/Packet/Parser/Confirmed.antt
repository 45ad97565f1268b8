-- ===== src/Packet/Parser/Confirmed.antt =====
-- What follows for the sender when bzrtp_packetParser accepts a Confirm (src/packetParser.c).
use bzrtp.Common.{
  ℕ, ◌+◌, ◌-◌, ◌*◌, ◌/◌, ◌%◌, ◌^◌, ◌≤◌, ◌<◌, Bytes, take, drop, length, length-drop, drop-drop, [],
  ◌∷◌, read, read-eq-ok, read_byte, be32, get_or, Option, none, some, ok, Error, >>=-ok, guard-ok,
  ok-injective, bytes_eq, bytes_eq_iff, Bool, true, false, ◌≡◌, refl, sym, ap, ◌∙◌, subst, arith,
}
use bzrtp.Packet.Types.{Packet, ConfirmMessage, confirm_data}
use bzrtp.Packet.Parser.Authentic.{
  OpensHello, OpensCommit, OpensDhPart, check_hello-eq-ok, check_commit-eq-ok, check_dhpart-eq-ok,
}
use bzrtp.Packet.Parser.Confirm.{
  parse_confirm, parse_confirm_plain, check_h0, call_hmac, call_decrypt, key_of, peer_mackey,
  peer_zrtpkey, cipher_text_length, without_dhpart, read_signature,
}
use bzrtp.Channel.{Crypto, Channel, Role, initiator, responder, sha256}

-- What an H0 proves: without a DHPart it leads to the stored Commit or Hello, else to the stored DHPart.
unfoldable pub H0Proof : Crypto → Channel → Bool → Role → Bytes → Type 0
H0Proof c ch true responder h0 = OpensCommit c ch.peer_packets.commit (c.hash sha256 h0 32)
H0Proof c ch true initiator h0 =
    OpensHello c ch.peer_packets.hello (c.hash sha256 (c.hash sha256 h0 32) 32)
H0Proof c ch false role h0 = OpensDhPart c ch.peer_packets.dhpart h0

check_h0-eq-ok :
    (c : Crypto) (ch : Channel) (short : Bool) (role : Role) (h0 : Bytes) {u : Unit {0}}
    → check_h0 c ch short role h0 ≡ ok u
    → H0Proof c ch short role h0
unfolding check_h0 H0Proof
check_h0-eq-ok c ch true responder h0 h =
    check_commit-eq-ok c ch.peer_packets.commit (c.hash sha256 h0 32) h
check_h0-eq-ok c ch true initiator h0 h =
    check_hello-eq-ok c ch.peer_packets.hello (c.hash sha256 (c.hash sha256 h0 32) 32) h
check_h0-eq-ok c ch false role h0 h = check_dhpart-eq-ok c ch.peer_packets.dhpart h0 h

key_of-eq-ok : (k : Option Bytes) (e : Error) {key : Bytes} → key_of k e ≡ ok key → k ≡ some key
unfolding key_of
key_of-eq-ok none e h = cc
key_of-eq-ok (some k) e h = ap some (ok-injective h)

read_byte-eq-ok : (c : Bytes) {r : ℕ × Bytes} → read_byte c ≡ ok r → c ≡ r.0 ∷ r.1
unfolding read_byte
read_byte-eq-ok [] h = cc
read_byte-eq-ok (b ∷ c) h = ap (λ (r : ℕ × Bytes). r.0 ∷ r.1) (ok-injective h)

-- The plain text behind H0: a byte that is not used, nine bits of the length of the signature, four
-- flags in a byte, and the expiration interval.
unfoldable pub IsPlainText : Bytes → ConfirmMessage → Type 0
IsPlainText plain m =
    (unused : ℕ) × (high : ℕ) × (low : ℕ) × (flags : ℕ) × (rest : Bytes) × (plain
      ≡ unused ∷ high ∷ low ∷ flags ∷ rest)
    × (m.sig_len ≡ high % 2 * 256 + low)
    × (m.e ≡ flags / 8 % 2)
    × (m.v ≡ flags / 4 % 2)
    × (m.a ≡ flags / 2 % 2)
    × (m.d ≡ flags % 2)
    × (m.cache_expiration_interval
        ≡ be32 (get_or (take 4 rest) 0 0) (get_or (take 4 rest) 1 0) (get_or (take 4 rest) 2 0)
            (get_or (take 4 rest) 3 0))

-- The fields that are read before the plain text, and those in it.
Keeps : Bytes → Bytes → Bytes → Bytes → ConfirmMessage → Type 0
Keeps confirm_mac cfb_iv h0 plain m =
    (confirm_mac ≡ m.confirm_mac) × (cfb_iv ≡ m.cfb_iv) × (h0 ≡ m.h0) × IsPlainText plain m

parse_confirm_plain-Keeps :
    (confirm_mac cfb_iv h0 plain : Bytes) {m : ConfirmMessage}
    → parse_confirm_plain confirm_mac cfb_iv h0 plain ≡ ok m
    → Keeps confirm_mac cfb_iv h0 plain m
unfolding parse_confirm_plain Keeps IsPlainText
parse_confirm_plain-Keeps confirm_mac cfb_iv h0 plain h = >>=-ok (read_byte plain) _ h λ a₁ h₁ h.
    >>=-ok (read_byte a₁.1) _ h λ a₂ h₂ h. >>=-ok (read_byte a₂.1) _ h λ a₃ h₃ h.
      >>=-ok (read_byte a₃.1) _ h λ a₄ h₄ h. >>=-ok (read 4 a₄.1) _ h λ a₅ h₅ h.
        >>=-ok (read_signature (a₂.0 % 2 * 256 + a₃.0) a₅.1) _ h λ a₆ _ h.
          subst (Keeps confirm_mac cfb_iv h0 plain) (ok-injective h) (
            refl,
            refl,
            refl,
            (
              a₁.0,
              a₂.0,
              a₃.0,
              a₄.0,
              a₄.1,
              rw
                  (
                    read_byte-eq-ok plain h₁,
                    read_byte-eq-ok a₁.1 h₂,
                    read_byte-eq-ok a₂.1 h₃,
                    read_byte-eq-ok a₃.1 h₄,
                  )
                  refl,
              refl,
              refl,
              refl,
              refl,
              refl,
              rw ((read-eq-ok 4 a₄.1 h₅).1) refl,
            ),
          )

-- The part of a datagram from after the IV of a Confirm to the end of its message.
abbrev pub encrypted_part : Bytes → Packet → Bytes
encrypted_part input p = take (p.message_length - 36) (drop 48 input)

-- MAC and IV are those of the datagram, the MAC under the peer's key is over all of the encrypted part,
-- and the encrypted part decrypts to H0 and the fields of the message.
unfoldable pub IsSealedBy : Crypto → Channel → Bytes → Packet → ConfirmMessage → Type 0
unfolding IsPlainText
IsSealedBy c ch input p m =
    (key : Bytes) × (mackey : Bytes) × (plain : Bytes) × (peer_zrtpkey ch.role ch ≡ some key)
    × (peer_mackey ch.role ch ≡ some mackey)
    × (36 ≤ p.message_length)
    × (12 + p.message_length ≤ length input)
    × (m.confirm_mac ≡ take 8 (drop 24 input))
    × (m.cfb_iv ≡ take 16 (drop 32 input))
    × (call_hmac c ch mackey (encrypted_part input p) ≡ ok m.confirm_mac)
    × (call_decrypt c ch.cipher_function key m.cfb_iv (encrypted_part input p) ≡ ok plain)
    × (m.h0 ≡ take 32 plain)
    × IsPlainText (drop 32 plain) m

-- The packet holds a Confirm that the peer sealed, whose H0 proves what it must prove.
unfoldable pub IsConfirmFrom : Crypto → Channel → Bytes → Packet → Packet → Type 0
IsConfirmFrom c ch input p q =
    (m : ConfirmMessage) × (q.message_data ≡ some (confirm_data m))
    × IsSealedBy c ch input p m
    × H0Proof c ch (without_dhpart ch) ch.role m.h0

-- Where the three reads of a Confirm lie in the datagram.
Lies : Bytes → Packet → Bytes → Bytes → Bytes → Type 0
Lies input p confirm_mac cfb_iv cipher_text =
    (36 ≤ p.message_length)
    × (12 + p.message_length ≤ length input)
    × (take 8 (drop 24 input) ≡ confirm_mac)
    × (take 16 (drop 32 input) ≡ cfb_iv)
    × (encrypted_part input p ≡ cipher_text)

read-Lies :
    (input : Bytes) (p : Packet) {a₁ a₂ a₃ : Bytes × Bytes}
    → length input < 2 ^ 16
    → p.message_length < 2 ^ 16
    → read 8 (drop 24 input) ≡ ok a₁
    → read 16 a₁.1 ≡ ok a₂
    → read (cipher_text_length p.message_length) a₂.1 ≡ ok a₃
    → Lies input p a₁.0 a₂.0 a₃.0
unfolding Lies
read-Lies input p {a₁} {a₂} {a₃} short word h₁ h₂ h₃ =
    let (i₁, t₁, d₁) = read-eq-ok 8 (drop 24 input) h₁ in
    let (i₂, t₂, d₂) = read-eq-ok 16 a₁.1 h₂ in
    let (i₃, t₃, d₃) = read-eq-ok (cipher_text_length p.message_length) a₂.1 h₃ in
    let e₁ : drop 32 input ≡ a₁.1 = sym (drop-drop 8 24 input) ∙ d₁ in
    let e₂ : drop 48 input ≡ a₂.1 = sym (drop-drop 16 32 input) ∙ (ap (drop 16) e₁ ∙ d₂) in
    let len : length a₂.1 ≡ length input - 48 = ap length (sym e₂) ∙ length-drop 48 input in
    let len₁ : length a₁.1 ≡ length input - 32 = ap length (sym e₁) ∙ length-drop 32 input in
    let enough : 36 ≤ p.message_length = omega (arith, i₃, len) in
    let exact : cipher_text_length p.message_length ≡ p.message_length - 36 = omega arith in
    (
      enough,
      omega (arith, i₂, i₃, len, len₁),
      t₁,
      ap (take 16) e₁ ∙ t₂,
      ap (take (p.message_length - 36)) e₂ ∙ (ap (λ k. take k a₂.1) (sym exact) ∙ t₃),
    )

-- A Confirm in a datagram of less than 2^16 bytes is accepted only if the MAC that it carries is the
-- peer's over its whole encrypted part, which decrypts under the peer's key to the H0, the flags, the
-- length of the signature and the expiration interval of the result; and this H0 is behind the H1, H2
-- or H3 that the peer sent before, and opens the MAC of that message.
pub parse_confirm_authentic :
    (c : Crypto) (ch : Channel) (input : Bytes) (n : ℕ) (p : Packet) {q : Packet}
    → length input < 2 ^ 16
    → p.message_length < 2 ^ 16
    → parse_confirm c ch input n p ≡ ok q
    → IsConfirmFrom c ch input p q
unfolding parse_confirm Keeps Lies IsSealedBy IsConfirmFrom
parse_confirm_authentic c ch input n p short word h =
    >>=-ok (key_of (peer_zrtpkey ch.role ch) Error.parser_error_invalid_context) _ h λ key ek h.
      >>=-ok (key_of (peer_mackey ch.role ch) Error.parser_error_invalid_context) _ h λ mackey em h.
        >>=-ok (read 8 (drop 24 input)) _ h λ a₁ h₁ h. >>=-ok (read 16 a₁.1) _ h λ a₂ h₂ h.
          >>=-ok (read (cipher_text_length p.message_length) a₂.1) _ h λ a₃ h₃ h.
            >>=-ok (call_hmac c ch mackey a₃.0) _ h λ computed ec h.
              guard-ok (bytes_eq computed a₁.0) _ _ h λ same h.
                >>=-ok (call_decrypt c ch.cipher_function key a₂.0 a₃.0) _ h λ plain ed h.
                  >>=-ok (read 32 plain) _ h λ a₄ er h.
                    >>=-ok (check_h0 c ch (without_dhpart ch) ch.role a₄.0) _ h λ _ proved h.
                      >>=-ok (parse_confirm_plain a₁.0 a₂.0 a₄.0 a₄.1) _ h λ m made h.
                        >>=-ok (read n input) _ h λ _ _ h.
                          let (mac, iv, chain, fields) =
                            parse_confirm_plain-Keeps a₁.0 a₂.0 a₄.0 a₄.1 made in
                          let (enough, inside, at_mac, at_iv, at_text) =
                            read-Lies input p short word h₁ h₂ h₃ in
                          let (_, front, behind) = read-eq-ok 32 plain er in
                          (
                            m,
                            ap (λ (q : Packet). q.message_data) (sym (ok-injective h)),
                            (
                              key,
                              mackey,
                              plain,
                              key_of-eq-ok (peer_zrtpkey ch.role ch) _ ek,
                              key_of-eq-ok (peer_mackey ch.role ch) _ em,
                              enough,
                              inside,
                              sym (at_mac ∙ mac),
                              sym (at_iv ∙ iv),
                              ap (call_hmac c ch mackey) at_text
                                  ∙ (ec ∙ ap ok ((bytes_eq_iff computed a₁.0).0 same ∙ mac)),
                              ap (call_decrypt c ch.cipher_function key m.cfb_iv) at_text
                                  ∙ subst
                                      (λ iv.
                                        call_decrypt c ch.cipher_function key iv a₃.0 ≡ ok plain)
                                      iv ed,
                              sym (front ∙ chain),
                              subst (λ rest. IsPlainText rest m) (sym behind) fields,
                            ),
                            subst (H0Proof c ch (without_dhpart ch) ch.role) chain
                                (check_h0-eq-ok c ch (without_dhpart ch) ch.role a₄.0 proved),
                          )
