-- ===== src/Protocol.antt =====
-- src/mlx_moe_stream/server/protocol.py: the requests of the chat protocol and the transforms of
-- streamed text.
pub mod Text
pub mod Stop
pub mod Thinking
pub mod Options
pub mod Messages
pub mod Composed
mod Tests
