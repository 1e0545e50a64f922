-- ===== src/Comet/Conn/Queue.antt =====
-- The send queue is bounded, keeps the order of its frames, and loses none.
use link_im.Prelude.{◌≤◌, true, false, [], ◌∷◌, ◌++◌, ◌≡◌, ◌⊎◌, arith, length, length-append}
use link_im.Prelude.Bytes.{Bytes}
use link_im.Comet.Conn.{Conn, sent, conn_closed, slow_consumer, push, send_chan_size}

-- On a connection whose queue is within its capacity, a push does one of three things: the
-- connection is closed and stays as it was; its queue is full and it stays as it was; or it is
-- open, the frame becomes the last of the queue, which is still within its capacity, and nothing
-- else changes.
pub push_cases :
    (frame : Bytes) (c : Conn)
    → length c.send ≤ send_chan_size
    → ((push frame c ≡ (conn_closed, c)) × (c.closed ≡ true))
      ⊎ (((push frame c ≡ (slow_consumer, c))
            × (c.closed ≡ false)
            × (length c.send ≡ send_chan_size))
          ⊎ ((push frame c ≡ (sent, record c { send = c.send ++ frame ∷ [] }))
              × (c.closed ≡ false)
              × (length (c.send ++ frame ∷ []) ≤ send_chan_size)))
unfolding push
push_cases frame c h = ground (arith, length-append c.send (frame ∷ []))
