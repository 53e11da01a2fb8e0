-- ===== src/Trace.antt =====
-- The tracer's records and their history (macdbg/core).
pub mod Log
