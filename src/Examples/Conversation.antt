-- ===== src/Examples/Conversation.antt =====
-- Conversation ids of two users and of a group.
use link_im.Prelude.{some, ◌≡◌, arith}
use link_im.Prelude.Int.{pos}
use link_im.Service.Conv.{conv_id_for_p2p, parse_p2p_conv}
use link_im.Service.Conv.RoundTrip.{parse-conv_id_for_p2p}

parse-conv_id_for_p2p_example :
    parse_p2p_conv (conv_id_for_p2p (pos 12) (pos 7)) ≡ some (pos 7, pos 12)
parse-conv_id_for_p2p_example =
    parse-conv_id_for_p2p (pos 12) (pos 7) (omega arith) (omega arith) (λ e. cc e)
