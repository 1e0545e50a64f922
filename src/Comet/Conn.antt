-- ===== src/Comet/Conn.antt =====
-- internal/comet/conn.go: one connection. The send channel is the list of the frames in it, the
-- oldest first; the closed channel and its Once are a flag. Times do not fall below 0.
pub mod Queue
use link_im.Prelude.{
  ℕ, ◌+◌, Bool, true, false, ◌&&◌, List, [], ◌∷◌, ◌++◌, ltb, ◌==◌, if◌then◌else◌, length,
}
use link_im.Prelude.Int.{ℤ, pos}
use link_im.Prelude.Bytes.{Bytes, codes}
use link_im.Decimal.{format_int}

abbrev pub send_chan_size : ℕ
send_chan_size = 256

-- 75 s and 5 s
abbrev pub idle_timeout : ℕ
idle_timeout = 75

abbrev pub slow_kick_after : ℕ
slow_kick_after = 5000

pub record Conn : Type 0 where
  pub uid : ℤ
  pub device_id : Bytes
  pub platform : ℤ
  pub authed : Bool
  pub send : List Bytes
  pub last_active : ℕ
  pub full_since : ℕ
  pub closed : Bool

unfoldable pub new_conn : ℕ → Conn
new_conn now_sec = record {
  uid = pos 0;
  device_id = [];
  platform = pos 0;
  authed = false;
  send = [];
  last_active = now_sec;
  full_since = 0;
  closed = false;
}

unfoldable pub device_key : ℤ → Bytes → Bytes
device_key uid device_id = format_int uid ++ (codes ":" ++ device_id)

unfoldable pub touch : ℕ → Conn → Conn
touch now_sec c = record c { last_active = now_sec }

-- `c.idleSeconds(now) > timeoutSec`, with the subtraction brought over.
unfoldable pub is_idle : ℕ → ℕ → Conn → Bool
is_idle now timeout c = c.authed && ltb (c.last_active + timeout) now

unfoldable pub set_identity : ℤ → Bytes → ℤ → Conn → Conn
set_identity uid device_id platform c = record c {
  uid = uid;
  device_id = device_id;
  platform = platform;
}

unfoldable pub mark_authed : Conn → Conn
mark_authed c = record c { authed = true }

pub data PushResult : Type 0 where
  sent conn_closed slow_consumer : PushResult

unfoldable pub push : Bytes → Conn → PushResult × Conn
push frame c =
    if c.closed
    then (conn_closed, c)
    else if ltb (length c.send) send_chan_size
    then (sent, record c { send = c.send ++ frame ∷ [] })
    else (slow_consumer, c)

-- The second's check of the write loop: whether the connection is to be dropped.
unfoldable pub check_slow : ℕ → Conn → Bool × Conn
check_slow now_ms c =
    if ltb (length c.send) send_chan_size
    then (false, record c { full_since = 0 })
    else if c.full_since == 0
    then (false, record c { full_since = now_ms })
    else (ltb (c.full_since + slow_kick_after) now_ms, c)
