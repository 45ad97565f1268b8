-- ===== src/Packet/Names.antt =====
-- The eight character names of the message types (messageTypeInttoString and messageTypeStringtoInt of
-- src/packetParser.c), with GOCLEAR_ENABLED.
use bzrtp.Common.{Bytes, codes, Option, none, some, if◌then◌else◌, bytes_eq, ◌≡◌, refl, subst}
use bzrtp.Packet.Types.{MessageType}

unfoldable pub message_type_int_to_string : MessageType → Option Bytes
message_type_int_to_string MessageType.hello = some (codes "Hello   ")
message_type_int_to_string MessageType.hello_ack = some (codes "HelloACK")
message_type_int_to_string MessageType.commit = some (codes "Commit  ")
message_type_int_to_string MessageType.dhpart1 = some (codes "DHPart1 ")
message_type_int_to_string MessageType.dhpart2 = some (codes "DHPart2 ")
message_type_int_to_string MessageType.confirm1 = some (codes "Confirm1")
message_type_int_to_string MessageType.confirm2 = some (codes "Confirm2")
message_type_int_to_string MessageType.conf2_ack = some (codes "Conf2ACK")
message_type_int_to_string MessageType.error = some (codes "Error   ")
message_type_int_to_string MessageType.error_ack = some (codes "ErrorACK")
message_type_int_to_string MessageType.go_clear = some (codes "GoClear ")
message_type_int_to_string MessageType.clear_ack = some (codes "ClearACK")
message_type_int_to_string MessageType.sas_relay = some (codes "SASrelay")
message_type_int_to_string MessageType.relay_ack = some (codes "RelayACK")
message_type_int_to_string MessageType.ping = some (codes "Ping    ")
message_type_int_to_string MessageType.ping_ack = some (codes "PingACK ")
message_type_int_to_string MessageType.invalid = none
message_type_int_to_string MessageType.fragment = none

unfoldable pub message_type_string_to_int : Bytes → MessageType
unfolding bytes_eq
message_type_string_to_int s =
    if bytes_eq s (codes "Hello   ")
    then MessageType.hello
    else if bytes_eq s (codes "HelloACK")
    then MessageType.hello_ack
    else if bytes_eq s (codes "Commit  ")
    then MessageType.commit
    else if bytes_eq s (codes "DHPart1 ")
    then MessageType.dhpart1
    else if bytes_eq s (codes "DHPart2 ")
    then MessageType.dhpart2
    else if bytes_eq s (codes "Confirm1")
    then MessageType.confirm1
    else if bytes_eq s (codes "Confirm2")
    then MessageType.confirm2
    else if bytes_eq s (codes "Conf2ACK")
    then MessageType.conf2_ack
    else if bytes_eq s (codes "Error   ")
    then MessageType.error
    else if bytes_eq s (codes "ErrorACK")
    then MessageType.error_ack
    else if bytes_eq s (codes "GoClear ")
    then MessageType.go_clear
    else if bytes_eq s (codes "ClearACK")
    then MessageType.clear_ack
    else if bytes_eq s (codes "SASrelay")
    then MessageType.sas_relay
    else if bytes_eq s (codes "RelayACK")
    then MessageType.relay_ack
    else if bytes_eq s (codes "Ping    ")
    then MessageType.ping
    else if bytes_eq s (codes "PingACK ")
    then MessageType.ping_ack
    else MessageType.invalid

-- A text, if there is one, is read as the type t.
IsReadAs : MessageType → Option Bytes → Type 0
IsReadAs t none = Unit {0}
IsReadAs t (some s) = message_type_string_to_int s ≡ t

int_to_string-IsReadAs : (t : MessageType) → IsReadAs t (message_type_int_to_string t)
unfolding IsReadAs message_type_int_to_string message_type_string_to_int bytes_eq
int_to_string-IsReadAs MessageType.invalid = tt
int_to_string-IsReadAs MessageType.fragment = tt
int_to_string-IsReadAs _ = refl

-- The text of every message type that has one is read back as that type.
pub message_type-string_to_int-int_to_string :
    (t : MessageType) {s : Bytes}
    → message_type_int_to_string t ≡ some s
    → message_type_string_to_int s ≡ t
unfolding IsReadAs
message_type-string_to_int-int_to_string t e = subst (IsReadAs t) e (int_to_string-IsReadAs t)
