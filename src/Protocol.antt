-- ===== src/Protocol.antt =====
-- pkg/protocol: the binary frames that travel over the WebSocket.
pub mod Cmd
pub mod Frame
pub mod Stream
