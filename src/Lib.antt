-- ===== src/Lib.antt =====
-- LinkIM, an instant messaging backend in Go: a model of its core and the theorems about it.
--
-- A client speaks the framed protocol of pkg/protocol over WebSocket to an instance of comet
-- (internal/comet), which authenticates it, keeps it in a table of buckets and hands its business
-- frames to the logic service (internal/logic). Logic resolves the conversation
-- (internal/service/conv.go), claims an idempotency key, draws a sequence number and an id
-- (pkg/snowflake) and writes the message to Kafka. The job service
-- (internal/job) consumes those topics: it stores the messages in batches and pushes them to the
-- instances on which the receivers stand. The account service (internal/account)
-- registers users, issues and checks their tokens, and keeps the groups, whose changes the job
-- service turns into conversations.
--
-- The files:
--   * Prelude: shared names, the Boolean tests, lists measured by native numbers, int64 values
--     as integers (Prelude/Int), text as byte lists with strings.Split (Prelude/Bytes), and the
--     bit operations of an id (Prelude/Bits). Decimal: strconv.FormatInt and ParseInt.
--   * Protocol/Cmd: pkg/protocol/cmd.go. Protocol/Frame: Encode and Decode of
--     pkg/protocol/frame.go. Protocol/Stream: its StreamReader over wsMessageReader of
--     internal/comet/server.go, a list of chunks that ends with an error.
--   * Snowflake: pkg/snowflake/snowflake.go, NewNode and Next. The clock is the list of the
--     readings that the calls make; a call that waits longer than the list lasts is `none`.
--   * Service/Conv: internal/service/conv.go. Service/Members: internal/service/members.go, over a
--     state that Redis and MySQL share, of which a View tells the set and the rows.
--   * Logic/World: what internal/logic calls of Redis, Kafka and the other services, as
--     functions of the history of all calls. Logic/SendMsg: sendMsg and replayOrBusy of
--     internal/logic/sendmsg.go. Logic/Sync: internal/logic/sync.go. Logic/Token:
--     internal/logic/token.go and VerifyToken of server.go. Logic/Verifier: httpverifier.go.
--     Logic/Conversations: the handlers of sync.go on the conversation table, and delivered.go.
--     Logic/Friends: the friend cache of redisdep.go.
--   * Comet/Conn, Comet/Bucket: internal/comet/conn.go and bucket.go. Comet/Server: the table of
--     an instance, closing, PushFrames and Kick of internal/comet/server.go and grpc.go.
--     Comet/Auth: handleAuth, kickSamePlatform and readLoop. Comet/Steps: the instance as a
--     transition system, with the accept handler, the watchdog, the idle scan, the write loop and
--     handleAuth in stages.
--     Comet/Dispatch: internal/comet/dispatch.go. Comet/Drain: OnlineCount and Drain.
--   * Account: the codes of internal/account/errcode.go. Account/Tables: the statements of
--     groupstore.go on the tables of migrations/000002_relation.up.sql. Account/Session: jwtAuth of
--     group.go. Account/Groups: the handlers of group.go; Account/Groups/Store: groupstore.go.
--     Account/Service: service.go and token.go. Account/Handlers: handler.go.
--   * Job/Store, Job/Rows: BatchLoop of internal/job/store.go and what it calls, and ShardTable of
--     pkg/mysqlx/ShardTable.go. Job/Receiver, Job/Push: internal/job/push.go, and reconcileHash of
--     internal/job/reconcile.go, with Job/Reconcile. Job/GroupEvents: internal/job/group.go.
--     Job/RunLoop: internal/job/runloop.go.
--   * Examples: concrete runs.
--
-- State is passed explicitly. A call of something outside the repository (Redis, Kafka, another
-- instance, the codecs of protobuf and JSON, the clock) is a parameter: a field of a World, whose
-- answer may depend on every call made before. Machine integers keep their widths: a frame's
-- fields and lengths wrap where the source converts them, an id is a 64-bit pattern, and a uid is
-- an integer with `IsInt64` where the range matters.
--
-- Fuel: Decimal.digits takes a number's successor, which bounds the number of its digits; the
-- loop over the frames of a stream takes one unit for each frame and one for the error, and
-- `read_all-wires` shows that this is enough. A group's rows are cut with the number of
-- its members as fuel, which is enough since each batch takes one. All other loops are structural.
--
-- Not modelled: the wiring in cmd, configuration, logs and metrics, the generated code, the
-- adapters that pass one call to Redis, and the tools in scripts. The libraries that reach MySQL,
-- Redis, Kafka and HTTP are parameters. Concurrency is modelled as far as a method that runs under
-- a lock, or a handler, is one step; handleAuth is one step for each part between two waits, so that
-- a close by another goroutine may come in between.
pub mod Prelude
pub mod Decimal
pub mod Service
pub mod Protocol
pub mod Snowflake
pub mod Logic
pub mod Comet
pub mod Account
pub mod Job
pub mod Examples
