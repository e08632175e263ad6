-- ===== src/Protocol/Thinking/Whole.antt =====
-- The thinking parser against a labelling of the whole text.
pub mod Near
pub mod Apart
pub mod Label
pub mod Stream
pub mod Deltas
