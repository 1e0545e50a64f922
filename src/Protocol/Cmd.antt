-- ===== src/Protocol/Cmd.antt =====
-- pkg/protocol/cmd.go: the command words and their names.
use link_im.Prelude.{
  ℕ, ◌+◌, ◌/◌, ◌%◌, ◌≡◌, refl, List, [], ◌∷◌, ◌++◌, Option, none, some, ltb, ◌==◌, if◌then◌else◌,
}
use link_im.Prelude.Bytes.{Bytes, codes}

abbrev pub cmd_auth : ℕ
cmd_auth = 0x01

abbrev pub cmd_auth_ack : ℕ
cmd_auth_ack = 0x02

abbrev pub cmd_heartbeat : ℕ
cmd_heartbeat = 0x03

abbrev pub cmd_heartbeat_ack : ℕ
cmd_heartbeat_ack = 0x04

abbrev pub cmd_msg_send : ℕ
cmd_msg_send = 0x05

abbrev pub cmd_msg_send_ack : ℕ
cmd_msg_send_ack = 0x06

abbrev pub cmd_msg_push : ℕ
cmd_msg_push = 0x07

abbrev pub cmd_msg_received_ack : ℕ
cmd_msg_received_ack = 0x08

abbrev pub cmd_sync_pull : ℕ
cmd_sync_pull = 0x09

abbrev pub cmd_sync_resp : ℕ
cmd_sync_resp = 0x0a

abbrev pub cmd_recall : ℕ
cmd_recall = 0x0b

abbrev pub cmd_typing : ℕ
cmd_typing = 0x0c

abbrev pub cmd_reconnect_now : ℕ
cmd_reconnect_now = 0x0d

abbrev pub cmd_sync_notify : ℕ
cmd_sync_notify = 0x0e

-- The map literal `cmdNames`.
abbrev cmd_names : List (ℕ × Bytes)
cmd_names =
    (cmd_auth, codes "AUTH")
    ∷ (cmd_auth_ack, codes "AUTH_ACK")
    ∷ (cmd_heartbeat, codes "HEARTBEAT")
    ∷ (cmd_heartbeat_ack, codes "HEARTBEAT_ACK")
    ∷ (cmd_msg_send, codes "MSG_SEND")
    ∷ (cmd_msg_send_ack, codes "MSG_SEND_ACK")
    ∷ (cmd_msg_push, codes "MSG_PUSH")
    ∷ (cmd_msg_received_ack, codes "MSG_RECEIVED_ACK")
    ∷ (cmd_sync_pull, codes "SYNC_PULL")
    ∷ (cmd_sync_resp, codes "SYNC_RESP")
    ∷ (cmd_recall, codes "RECALL")
    ∷ (cmd_typing, codes "TYPING")
    ∷ (cmd_sync_notify, codes "SYNC_NOTIFY")
    ∷ (cmd_reconnect_now, codes "RECONNECT_NOW")
    ∷ []

find_name : ℕ → List (ℕ × Bytes) → Option Bytes
find_name cmd [] = none
find_name cmd ((c, name) ∷ rest) = if c == cmd then some name else find_name cmd rest

-- One digit of the verb %X.
hex_digit : ℕ → ℕ
hex_digit d = if ltb d 10 then 48 + d else 55 + d

-- fmt.Sprintf("UNKNOWN_0x%04X", uint16(cmd)): four digits are enough for a uint16.
unknown_name : ℕ → Bytes
unfolding hex_digit
unknown_name cmd =
    codes "UNKNOWN_0x"
    ++ hex_digit (cmd / 4096 % 16)
      ∷ hex_digit (cmd / 256 % 16)
      ∷ hex_digit (cmd / 16 % 16)
      ∷ hex_digit (cmd % 16)
      ∷ []

or_unknown : ℕ → Option Bytes → Bytes
unfolding unknown_name
or_unknown cmd (some name) = name
or_unknown cmd none = unknown_name cmd

pub cmd_string : ℕ → Bytes
unfolding find_name or_unknown
cmd_string cmd = or_unknown cmd (find_name cmd cmd_names)

heartbeat_name : cmd_string cmd_heartbeat ≡ codes "HEARTBEAT"
unfolding cmd_string
heartbeat_name = refl

unknown_example : cmd_string 0xab ≡ codes "UNKNOWN_0x00AB"
unfolding cmd_string
unknown_example = refl
