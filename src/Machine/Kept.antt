-- ===== src/Machine/Kept.antt =====
-- The functions that create packets keep the state (src/packetParser.c).
use bzrtp.Common.{ℕ}
use bzrtp.Packet.Types.{MessageType}
use bzrtp.Session.{Environment}
use bzrtp.Creation.{
  commit_choice, create_commit, create_dhpart, create_confirm, create_go_clear, create_data,
  create_zrtp_packet,
}
use bzrtp.Creation.PublicValue.{
  start_key_exchange, commit_public_key, kem_cipher_text, dhpart_value,
}
use bzrtp.Machine.Keeping.{Keeps, keeps}

commit_public_key-Keeps : (env : Environment) (algo : ℕ) → Keeps (commit_public_key env algo)
unfolding commit_public_key
commit_public_key-Keeps env algo = search keeps depth 30

start_key_exchange-Keeps : (env : Environment) (algo n : ℕ) → Keeps (start_key_exchange env algo n)
unfolding start_key_exchange
start_key_exchange-Keeps env algo n = search keeps depth 30

kem_cipher_text-Keeps : (env : Environment) (algo n : ℕ) → Keeps (kem_cipher_text env algo n)
unfolding kem_cipher_text
kem_cipher_text-Keeps env algo n = search keeps depth 30

dhpart_value-Keeps :
    (env : Environment) (t : MessageType) (algo n : ℕ) → Keeps (dhpart_value env t algo n)
unfolding dhpart_value
dhpart_value-Keeps env MessageType.dhpart1 algo n =
    search (keeps, kem_cipher_text-Keeps, start_key_exchange-Keeps) depth 30
dhpart_value-Keeps env _ algo n =
    search (keeps, kem_cipher_text-Keeps, start_key_exchange-Keeps) depth 30

commit_choice-Keeps : (env : Environment) (algo : ℕ) → Keeps (commit_choice env algo)
unfolding commit_choice
commit_choice-Keeps env algo = search (keeps, commit_public_key-Keeps) depth 30

create_commit-Keeps : (env : Environment) → Keeps (create_commit env)
unfolding create_commit
create_commit-Keeps env = search (keeps, commit_choice-Keeps) depth 30

create_dhpart-Keeps : (env : Environment) (t : MessageType) → Keeps (create_dhpart env t)
unfolding create_dhpart
create_dhpart-Keeps env t = search (keeps, dhpart_value-Keeps) depth 30

create_confirm-Keeps : (env : Environment) → Keeps (create_confirm env)
unfolding create_confirm
create_confirm-Keeps env = search keeps depth 30

create_data-Keeps : (env : Environment) (t : MessageType) → Keeps (create_data env t)
unfolding create_data create_go_clear
create_data-Keeps env MessageType.hello =
    search (keeps, create_commit-Keeps, create_dhpart-Keeps, create_confirm-Keeps) depth 30
create_data-Keeps env MessageType.hello_ack =
    search (keeps, create_commit-Keeps, create_dhpart-Keeps, create_confirm-Keeps) depth 30
create_data-Keeps env MessageType.commit =
    search (keeps, create_commit-Keeps, create_dhpart-Keeps, create_confirm-Keeps) depth 30
create_data-Keeps env MessageType.dhpart1 =
    search (keeps, create_commit-Keeps, create_dhpart-Keeps, create_confirm-Keeps) depth 30
create_data-Keeps env MessageType.dhpart2 =
    search (keeps, create_commit-Keeps, create_dhpart-Keeps, create_confirm-Keeps) depth 30
create_data-Keeps env MessageType.confirm1 =
    search (keeps, create_commit-Keeps, create_dhpart-Keeps, create_confirm-Keeps) depth 30
create_data-Keeps env MessageType.confirm2 =
    search (keeps, create_commit-Keeps, create_dhpart-Keeps, create_confirm-Keeps) depth 30
create_data-Keeps env MessageType.conf2_ack =
    search (keeps, create_commit-Keeps, create_dhpart-Keeps, create_confirm-Keeps) depth 30
create_data-Keeps env MessageType.go_clear =
    search (keeps, create_commit-Keeps, create_dhpart-Keeps, create_confirm-Keeps) depth 30
create_data-Keeps env MessageType.clear_ack =
    search (keeps, create_commit-Keeps, create_dhpart-Keeps, create_confirm-Keeps) depth 30
create_data-Keeps env MessageType.ping_ack =
    search (keeps, create_commit-Keeps, create_dhpart-Keeps, create_confirm-Keeps) depth 30
create_data-Keeps env MessageType.fragment =
    search (keeps, create_commit-Keeps, create_dhpart-Keeps, create_confirm-Keeps) depth 30
create_data-Keeps env _ =
    search (keeps, create_commit-Keeps, create_dhpart-Keeps, create_confirm-Keeps) depth 30

pub create_zrtp_packet-Keeps :
    (env : Environment) (t : MessageType) → Keeps (create_zrtp_packet env t)
unfolding create_zrtp_packet
create_zrtp_packet-Keeps env t = search (keeps, create_data-Keeps) depth 30
