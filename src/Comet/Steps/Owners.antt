-- ===== src/Comet/Steps/Owners.antt =====
-- What a client of the buckets may rely on: who is found under a user and a device.
use link_im.Prelude.{ℕ, ◌<◌, true, false, List, [], some, ◌++◌, ◌∷◌, ◌≡◌, ◌∙◌, refl, sym, ap, ◌⊎◌}
use link_im.Prelude.Int.{ℤ, IsInt64}
use link_im.Prelude.Bytes.{Bytes, split, split-append}
use link_im.Decimal.{format_int, parse_int}
use link_im.Decimal.RoundTrip.{parse_int-format_int, format_int-Lacks_colon}
use link_im.Comet.Conn.{Conn, device_key}
use link_im.Comet.Server.{World, find}
use link_im.Comet.Steps.{System, initial, Reachable, is_placed, is_racing}
use link_im.Comet.Steps.Invariant.{Reachable-Inv}

abbrev first_part : List Bytes → Bytes
first_part [] = []
first_part (p ∷ ps) = p

append_cancel : (p x y : Bytes) → p ++ x ≡ p ++ y → x ≡ y
append_cancel [] x y e = e
append_cancel (c ∷ p) x y e = append_cancel p x y (cc e)

first-key : (u : ℤ) (d : Bytes) → first_part (split b':' (device_key u d)) ≡ format_int u
unfolding device_key
first-key u d = rw (split-append b':' (format_int u) d (format_int-Lacks_colon u)) refl

-- A device key determines the uid, if both are int64, and the device.
device_key_injective :
    (u v : ℤ) (d e : Bytes)
    → IsInt64 u
    → IsInt64 v
    → device_key u d ≡ device_key v e
    → (u ≡ v) × (d ≡ e)
unfolding device_key
device_key_injective u v d e hu hv q =
    let texts : format_int u ≡ format_int v =
      sym (first-key u d) ∙ ap (λ k. first_part (split b':' k)) q ∙ first-key v e in
    let parsed = sym (parse_int-format_int u hu) ∙ ap parse_int texts ∙ parse_int-format_int v hv in
    (
      cc parsed,
      cc (
          append_cancel (format_int u) (b':' ∷ d) (b':' ∷ e)
            (q ∙ ap (λ t. t ++ b':' ∷ e) (sym texts))),
    )

-- In every state that an instance can reach from its start, the connection that is found under a
-- user and a device was accepted and belongs to that user and device, when the two uids are int64.
-- It is authenticated, unless its handleAuth has put it there and not marked it yet; and it is
-- open, unless its handleAuth has not marked it yet, or marked it when it was closed already.
pub Reachable-find :
    (w : World) (addr : Bytes) (conns : ℕ → Conn) (s : System) (uid : ℤ) (d : Bytes) (i : ℕ)
    → Reachable w (initial addr conns) s
    → IsInt64 uid
    → IsInt64 (s.server.conns i).uid
    → find uid d s.server ≡ some i
    → (i < s.accepted)
      × (((s.server.conns i).authed ≡ true) ⊎ (is_placed (s.stage i) ≡ true))
      × (((s.server.conns i).closed ≡ false) ⊎ (is_racing (s.stage i) ≡ true))
      × ((s.server.conns i).uid ≡ uid)
      × ((s.server.conns i).device_id ≡ d)
Reachable-find w addr conns s uid d i r hu hi e =
    let entry = (Reachable-Inv w addr conns s r).0 _ (device_key uid d) i e in
    let (u, v) =
      device_key_injective uid (s.server.conns i).uid d (s.server.conns i).device_id hu hi
        entry.key in
    (entry.known, entry.authed, entry.opened, sym u, sym v)
