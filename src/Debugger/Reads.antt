-- ===== src/Debugger/Reads.antt =====
-- macdbg/core/debugger.py: the loop of `read_memory` ends by itself, before its fuel does.
