-- ===== src/Lib.antt =====
-- macdbg, verified: models of the debugger's own logic under macdbg/core, and what is proved of
-- them.
--
-- The program is a debugger for macOS: an agent (macdbg/agent) and a window (GUI) drive one
-- `Debugger` (macdbg/core/debugger.py) on top of LLDB, and the modules of macdbg/core beside it
-- read images, assemble code, record and page the history of traced calls, reassemble the requests
-- that traced sockets send, merge, import, export and revert the patches of an analyst, keep the state of a
-- session, and handle the stops of timing rules, of guarded memory and of traps that a program sets for itself. Each of these is modelled here from its source; the debugger feeds them with bytes
-- that a hostile program controls, so most theorems are about arbitrary bytes.
--
-- Bytes (Bytes.antt): a byte is a number, byte strings and text are lists of them. Slices and
-- struct.unpack_from are written out with what they do out of range; a read past the end is a
-- result of its own, which no ValueError handler catches.
--
-- MachO.antt: macdbg/core/macho.py. `parse` is `MachO(data, subtype)`: `choose_slice` picks the arm64
-- slice of a universal file, `load_commands` walks the commands, `read_segment` and `read_sections`
-- are the two loops in its body. `file_offset` and `file_address` are the methods. The walk is a
-- recursion on the number of commands, the other loops on counts that the data states, so no fuel is
-- needed. MachO/Slices and MachO/Commands carry the invariants of the loops, MachO/Safety and
-- MachO/Ranges the theorems.
--
-- Assembly.antt: macdbg/core/assembly.py, for source text of code points below 256. Assembly/Text has the
-- methods of str, the regular expressions and `int(text, 0)`; Assembly/Encode is `relative_instruction`, with
-- one function for each group of mnemonics; integers below zero are those of Prelude/Int. The compiler is a
-- parameter from lines to the bytes of an object file or to a message, and MachO reads its object file.
-- Assembly/Targets decodes words by the encodings of the architecture; Fields, Branches and Reach are about the
-- encoder, Lines, Output and Program about `assemble`.
--
-- Trace.antt: macdbg/core/trace_log.py. `TraceLog` is the state; the lock, the clock, the JSON encoder
-- and the temporary file's name are parameters, and each call of `append` is given the answer of the
-- file system. Trace/Log/Invariant says what log stands for what history, Append and Runs keep
-- that, Polling is about `snapshot`.
--
-- Patches.antt: `normalized` of macdbg/core/patch_export.py over the patches of
-- macdbg/core/state.py. The dictionary is a list of entries by address. Patches/Values is about the
-- dictionary, Merge and Runs about the runs, Meaning about the whole.
--
-- Debugger.antt: read_memory, write_memory, _record_patch and revert_patch of
-- macdbg/core/debugger.py. `Process` is what they ask of an lldb.SBProcess, and `IsProcess` what LLDB
-- documents of it: a read that succeeds gives the bytes of the memory, and a write leaves the bytes
-- outside of its range alone. The halving of a read's size runs on fuel, one round more than the size,
-- which is more often than a size can be halved (Debugger/Reads). Debugger/Writes and Reverts hold the theorems, and
-- Debugger/Sample a process that can be run.
--
-- Timing.antt: macdbg/core/timing.py. Timing/Rules has the values and the checks of single rules against a
-- `Target`, the answers of LLDB; Timing.antt adds, removes and validates rules, Timing/Arming enables,
-- disables and validates the hooks, over `Breakpoints`, and Timing/Stops is `apply_stop`, with the answers to
-- each write of a register as part of a `Thread`. Prelude/Bits is about the digits of numbers. Timing/Digits,
-- Owned and Repeated hold the proofs.
--
-- Manifest.antt: import_manifest of macdbg/core/patch_export.py, over Debugger and over the file_address
-- of MachO. The file, its JSON and its hex digits are decoded outside; the load addresses of the module
-- are a parameter. Manifest/Rollback and Apply are about the writes and their rollback, Disjoint and Checks
-- about the checks and the whole import.
--
-- ReturnHooks.antt: macdbg/core/return_hooks.py, arm, consume and clear. `Breakpoints` is what the class
-- asks of the debugger, whose state is a parameter, and `IsBreakpoints` what the debugger promises: a
-- new breakpoint has a new number, and deleting one leaves the others. ReturnHooks/Ownership and
-- Completion hold the proofs.
--
-- EntryPlan.antt: macdbg/core/entry_plan.py. The answers of the debugger are arguments of the operations,
-- and what they do to it is a list of acts; EntryPlan/Entry is about the entry stop.
--
-- AnalysisMemory.antt: macdbg/core/analysis_memory.py, over ReturnHooks: `strings`, `capture` and `compare`.
-- AnalysisMemory/Observe is `observe`, with the digest as a parameter and the dump files as part of its
-- events; Guard has the execution guard, `disable` and `reset`, Stops `enable` and `apply_stop`. The loop of
-- `compare` runs on the number of its rows. Distance, Snapshots and Guarded hold the proofs.
--
-- State.antt: macdbg/core/state.py, the records, the payload of `save` and the reading of `load_for`; json.dump
-- and json.load carry a value of State/Values from one to the other. State/Hex has the numbers and bytes in
-- hexadecimal text and Roundtrip the proof.
--
-- SelfTrap.antt: macdbg/core/self_trap.py. `Target` is what the forwarder asks of LLDB, in a state that is a
-- parameter; hidden_ids is not modelled. SelfTrap/Restoring and Completing are about the registers, with
-- `IsTarget` as what LLDB documents of them; Owned and Reached are about the memory and the breakpoints, with
-- `IsOwner`, over the states that calls reach.
--
-- Export.antt: source, manifest and export of macdbg/core/patch_export.py, over Patches and MachO. A `Session`
-- is what the debugger answers, a `System` what the operating system answers to each call; the file system is a
-- list of contents by path, and the directories, the digest and the text of a manifest are left to parameters.
-- Export/Written is about the bytes that are written, Made about the files.
--
-- SessionTools.antt: signal_policy and related_processes of macdbg/core/session_tools.py. `Signals` is what is
-- asked of LLDB, and `IsSignals` what LLDB documents of it; the rows of ps are read outside. The loop over
-- generations runs 64 times, as in the source. SessionTools/Policies and Families hold the proofs.
--
-- Memory.antt: macdbg/core/memory.py, for a width of at least one byte. The loop runs on as many rounds as there
-- are bytes, which is enough since each round takes one at least; Memory/Rows reads the rows again.
--
-- Http.antt: macdbg/core/http_capture.py. Http/Text has the bytes methods and the regular expressions,
-- Http/Headers the headers and the request line, Http/Body the bounded copy of a body, Http/Stream a
-- stream and `_finish`, Http/Framing `_new_request`, Http/Consume the loop `_consume` with one function
-- for each mode, Http/Capture the methods of `HTTPRequestCapture`. An exception in the loop is a way
-- for a round to end, with the state it leaves. The loop runs on fuel, one round more than the buffer
-- has bytes, and the loop over pieces of 16384 bytes on as many rounds as there are bytes and one
-- more; Http/Totality proves both enough. Http/Invariant, Parts, Bodies and Rounds are about one
-- round, Streams, Feeding and Calls about the capture; Exact, Chunks, Messages, Pipeline and Requests are about
-- requests as they should be, from the bytes on the wire to what is given out. The strings in the
-- source that name a mode, a status or a warning are constructors of data types.
--
-- Not modelled: in macdbg/core/http_capture.py, the text, form fields, JSON and multipart parts that
-- `body_record` adds beside the bytes, since they are the results of Python's codecs, email and json
-- packages; in macdbg/core/state.py, the directories and the files; the rest of macdbg/core/debugger.py, the
-- other modules of macdbg/core, the agent and the window, most of which call LLDB in every line; and the copy of
-- an AppleScript disassembler and decompiler under macdbg/_vendor.
pub mod Prelude
pub mod Bytes
pub mod MachO
pub mod Assembly
pub mod Trace
pub mod Patches
pub mod Http
pub mod Debugger
pub mod Timing
pub mod Manifest
pub mod ReturnHooks
pub mod EntryPlan
pub mod AnalysisMemory
pub mod State
pub mod SelfTrap
pub mod Export
pub mod SessionTools
pub mod Memory
