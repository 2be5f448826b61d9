-- ===== src/Lib.antt =====
-- litrace traces the system calls of chosen processes. Three eBPF programs (internal/bpf/tracer.c)
-- run in the kernel at the entry and the exit of every system call and at the end of every thread.
-- They share BPF maps: the processes to trace, the calls in flight and the sequence numbers by
-- thread, and the arguments of an execve, which must be read before the process's memory is
-- replaced. At the exit of a call they fill in an event and submit it to a ring buffer. A Go program
-- loads them, reads the events, filters them by path and prints them.
--
-- The files, and the code they model:
--   Prelude     lists over the native numbers, Boolean tests, buffers that are written in place.
--   Types       internal/bpf/types.h: constants and structures.
--   User, Maps  what belongs to the kernel: the helpers that read user memory (bpf_probe_read_user,
--               bpf_probe_read_user_str) and the update and deletion of map entries. They are
--               parameters; IsHelper, IsMap and IsRoomy state their documented behaviour.
--   Syscalls, Schema
--               internal/bpf/syscalls/x86_64.h: system call numbers and the table of argument types,
--               in thirteen parts; set_syscall_arg_schema of tracer.c.
--   Capture, Argv
--               append_var_string, append_var_bytes and append_var_argv, with the loop that the two
--               argv functions share.
--   Execve      append_execve_var_string and append_execve_var_argv.
--   Clone       is_process_clone and should_track_unselected_syscall.
--   Tracer      the programs. State: maps and constants, track_child_process, cleanup_tid_state.
--               Enter: trace_sys_enter. Exit/Event: the event that trace_sys_exit fills in.
--               Exit/Emit: the rest of trace_sys_exit. Steps: the programs in any order. Range: what
--               fits into the machine's types.
--   Reader      findVarArgDesc, varPayloadSlice, isVarArgEnabled and the loop of formatVarArgv of
--               internal/format_var.go, eventTracePathAt of internal/event_path.go,
--               eventCreatesProcess of internal/decode.go, and of internal/path_filter.go
--               processCloneChildPID and the switch of matchesPath. Paths, Data and Argv follow a
--               value from the process's memory to the reader; Child compares the two sides' view
--               of a fork.
--   Decode      DecodeEvent of internal/decode.go, against the bytes of types.h's struct event.
--   FilePath    what the reader uses of Go's path/filepath: IsAbs, Clean and Join on Linux.
--   PathFilter  internal/path_filter.go. PathFilter: pathFilter and processPathState, and the
--               operations on them. Resolve: the path that an argument names. Observe: what is
--               learned from each event. Output: shouldOutput and shouldPrint. Config:
--               newPathFilter and handleTraceSyscallIDs. Synced: the invariant. Decision: what is
--               printed, said without the tracked descriptors. Traced: from the process's memory to
--               the printed event.
--   Handle      applyConfig of internal/bpf/handle.go: what the programs are loaded with.
--   Summary     addSummaryEvent of internal/summary.go and the sums of FormatSummary.
--   Run         the loop of Run in internal/run.go, from the records to what is printed or counted.
--               Traced: the programs and the loop together.
--   Text        lists of bytes, and what the reader uses of strings, strconv and fmt: Split, Join,
--               Contains, prefixes, Atoi, %d and %x.
--   Names       internal/syscalls/x86_64.go: the table in three parts, Name and ID.
--   Cli         internal/cli/parse.go, from the options on. Values: results without their errors.
--               Options: options that are printed. Attach, Selectors, Named, Mode: -p, -e with
--               --trace, and ParseArgs. Loaded: from the options to the filter of the programs.
--   Format      formatEnum, formatFlags and the flags of mmap and open of internal/format_args.go, with
--               the tables of internal/format.go; effectiveArgCount. Parts: how they are read back. Ret:
--               internal/format_ret.go without the modes of files.
--   Tests       a small machine, and an example of each theorem.
--
-- How the state corresponds: `Tracer` holds the four maps that the programs write, each as the
-- function that a lookup computes, and the submitted events, last one first. `Env` holds the
-- constants follow_forks and trace_filter_enabled and the map trace_syscall_filter, which no
-- program writes. A program is a function from the state before to the state after; the helper
-- results of one run are a `Call`; user memory may change between the two reads that trace_sys_exit
-- makes of a clone3's arguments, so the first has a field of its own. A write through the pointer of a lookup is `write_through`.
-- The path filter is a `PathFilter`; each of its operations is a function from the filter before to
-- the filter after, with its answer. A Go map is a list of pairs or, by process, a function. What
-- os.Readlink says of /proc/<pid>/cwd is the parameter `proc_cwd`, one function for each event.
--
-- Machine words are their bit patterns: a `long` is negative from 2 ^ 63 on, and an assignment to a
-- narrower field keeps the remainder. Reading past an array gives the default, and what a
-- write would put past its end is dropped. The loops over a table, over descriptors and over the
-- eight slots of argv are structural. The loop of formatVarArgv runs on as many rounds as there are
-- bytes, and each round takes one at least. A number is printed with a digit for each of at most 64
-- rounds, which are enough for a number below 2 ^ 64.
--
-- Not modelled: two programs that interleave inside one run on different processors (a program is
-- one step), the ring buffer's own memory (a reservation succeeds or fails), attaching and closing,
-- the printing of events but for the flags of mmap and open and the result, that of the summary's
-- rows, and what the flag package makes of the arguments. The values of the constants of
-- golang.org/x/sys/unix, which are not part of this repository, are a parameter of Format.
pub mod Prelude
pub mod Types
pub mod User
pub mod Maps
pub mod Syscalls
pub mod Argv
pub mod Capture
pub mod Execve
pub mod Schema
pub mod Clone
pub mod Tracer
pub mod Reader
pub mod FilePath
pub mod PathFilter
pub mod Handle
pub mod Decode
pub mod Summary
pub mod Run
pub mod Tests
pub mod Text
pub mod Names
pub mod Cli
pub mod Format
