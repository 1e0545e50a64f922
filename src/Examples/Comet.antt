-- ===== src/Examples/Comet.antt =====
-- An instance with one connection of user 7 on device "a", and a second one that authenticates.
use link_im.Prelude.{true, false, [], ◌∷◌, none, some, ◌≡◌, refl}
use link_im.Prelude.Int.{pos}
use link_im.Prelude.Bytes.{codes}
use link_im.Decimal.{format_int}
use link_im.Protocol.Frame.{Frame}
use link_im.Comet.Conn.{Conn, device_key}
use link_im.Comet.Bucket.{bucket_index, get}
use link_im.Comet.Server.{Server, close, World, AuthReq, VerifyTokenResp, update, find}
use link_im.Comet.Auth.{handle_auth}
use link_im.Comet.Auth.Leak.{handle_auth-leaked}
use link_im.Comet.Auth.Reconnect.{handle_auth-find, handle_auth-lost}

abbrev first : Conn
first = record {
  uid = pos 7;
  device_id = codes "a";
  platform = pos 1;
  authed = true;
  send = [];
  last_active = 0;
  full_since = 0;
  closed = false;
}

abbrev fresh : Conn
fresh = record first { uid = pos 0; device_id = []; platform = pos 0; authed = false }

abbrev empty : Server
empty = record {
  advertise_addr = codes "c1";
  conns = λ i. fresh;
  buckets = λ i. [];
  pending = [];
  notifying = [];
  dispatched = [];
  calls = [];
}

-- Connection 1 is `first`, and stands in the bucket of user 7.
abbrev occupied : Server
occupied = record empty {
  conns = update (λ i. fresh) 1 first;
  buckets = update (λ i. []) 7 ((codes "7:a", 1) ∷ []);
}

abbrev req : AuthReq
req = record { uid = pos 7; token = codes "t"; device_id = codes "a"; platform = pos 1 }

abbrev welcome : VerifyTokenResp
welcome = record { valid = true; code = 0; uid = pos 7 }

abbrev world : World
world = record {
  on_hget_all = λ h. some ((codes "1:a", codes "c1") ∷ (codes "1:c", codes "c2") ∷ []);
  on_hlen = λ h. some 1;
  on_kick_remote = λ h. true;
  on_verify_token = λ h. some welcome;
  unmarshal_auth_req = λ bs. some req;
  marshal_auth_ack = λ a. a.msg;
}

abbrev auth_frame : Frame
auth_frame = record { ver = 1; cmd = 1; seq = 1; body = [] }

free : find (pos 7) (codes "a") empty ≡ none
unfolding get
free = refl

taken : find (pos 7) (codes "a") occupied ≡ some 1
unfolding get bucket_index device_key format_int
taken = refl

handle_auth-find_example : find (pos 7) (codes "a") (handle_auth world 2 auth_frame empty) ≡ some 2
handle_auth-find_example = handle_auth-find world 2 auth_frame empty req welcome refl refl refl free

handle_auth-lost_example : find (pos 7) (codes "a") (handle_auth world 2 auth_frame occupied) ≡ none
handle_auth-lost_example =
    handle_auth-lost world 2 auth_frame occupied req welcome refl refl refl 1 (λ e. cc e) taken refl
      refl refl refl

-- The watchdog has closed connection 2.
abbrev shut : Server
shut = record empty { conns = update (λ i. fresh) 2 (record fresh { closed = true }) }

shut_free : find (pos 7) (codes "a") shut ≡ none
unfolding get
shut_free = refl

handle_auth-leaked_example :
    (find (pos 7) (codes "a") (handle_auth world 2 auth_frame shut) ≡ some 2)
    × (((handle_auth world 2 auth_frame shut).conns 2).closed ≡ true)
    × (close world 2 (handle_auth world 2 auth_frame shut) ≡ handle_auth world 2 auth_frame shut)
handle_auth-leaked_example =
    handle_auth-leaked world 2 auth_frame shut req welcome refl refl refl shut_free refl
