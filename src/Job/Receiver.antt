-- ===== src/Job/Receiver.antt =====
-- internal/job/push.go, ReceiverOf and deviceOfField.
use link_im.Prelude.{[], ◌∷◌, Option, none, some, ◌≡◌, ◌⊎◌, arith, ◌==◌, if◌then◌else◌}
use link_im.Prelude.Int.{ℤ, eq_ℤ, eq_ℤ_iff}
use link_im.Prelude.Bytes.{Bytes}
use link_im.Service.Conv.{parse_p2p_conv, colon}
use link_im.Logic.World.{PbMsg}

-- The switch on the sender: the other one of the two.
abbrev pub other_of : ℤ → Option (ℤ × ℤ) → Option ℤ
other_of sender none = none
other_of sender (some (a, b)) =
    if eq_ℤ sender a then some b else if eq_ℤ sender b then some a else none

unfoldable pub receiver_of : PbMsg → Option ℤ
receiver_of msg = other_of msg.sender_id (parse_p2p_conv msg.conv_id)

-- What stands after the first colon, or the whole field.
after_colon : Bytes → Option Bytes
after_colon [] = none
after_colon (c ∷ field) = let rest = after_colon field in if c == colon then some field else rest

abbrev or_whole : Bytes → Option Bytes → Bytes
or_whole field none = field
or_whole field (some device) = device

unfoldable pub device_of_field : Bytes → Bytes
unfolding after_colon
device_of_field field = or_whole field (after_colon field)

pub other_of_cases :
    (sender a b r : ℤ)
    → other_of sender (some (a, b)) ≡ some r
    → ((sender ≡ a) × (r ≡ b)) ⊎ ((sender ≡ b) × (r ≡ a))
other_of_cases sender a b r h = ground (arith, eq_ℤ_iff sender a, eq_ℤ_iff sender b)
