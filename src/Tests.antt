-- ===== src/Tests.antt =====
-- The machine that the examples run on: helpers that read a fixed string and fixed words, maps that
-- never fill up, and a process with one thread, number 7.
pub mod Kernel
pub mod Pairing
pub mod Decode
pub mod Data
pub mod Argv
pub mod Filter
pub mod Wire
pub mod Totals
pub mod Traced
pub mod Cli
pub mod Format
use litrace.Prelude.{
  ℕ, ◌*◌, ◌+◌, ◌^◌, ◌≡◌, List, [], ◌∷◌, Bool, true, false, Option, none, some, ◌==◌, leb, ◌&&◌,
  if◌then◌else◌, refl, arith, replicate, length, length-replicate,
}
use litrace.Types.{SyscallData, SysEnterArgs, SysExitArgs}
use litrace.User.{Call, UserRead, fault, got, IsHelper, KernelHeaders}
use litrace.Maps.{Map, MapOps, IsMap, IsRoomy, Roomy-IsMap}
use litrace.Tracer.State.{Env, Tracer}
use litrace.Tracer.Steps.{IsKernel, init}
use litrace.Tracer.Pairing.{HasRoom}
use litrace.Tracer.Exit.WellFormed.{IsHeaders}

-- The string "/a" stands at address 4096; the null page cannot be read, and other memory is zero.
abbrev pub read_string : ℕ → ℕ → UserRead
read_string size ptr = if leb 3 size && (ptr == 4096) then got (47 ∷ 97 ∷ 0 ∷ []) else fault []

abbrev pub read_bytes : ℕ → ℕ → UserRead
read_bytes size ptr = if ptr == 0 then fault [] else got (replicate size 0)

abbrev pub call : Bool → Call
call room = record {
  pid_tgid = 7 * 2 ^ 32 + 7;
  now = 100;
  read_user = read_bytes;
  read_user_first = read_bytes;
  read_user_str = read_string;
  ring_has_room = room;
}

pub call-IsHelper : (room : Bool) → IsHelper (call room)
call-IsHelper room = record {
  read_got = λ size ptr bytes h. ground (arith, length-replicate {A = ℕ} size 0);
  read_fault = λ size ptr left h. ground arith;
  str_got = λ size ptr bytes h. ground arith;
  str_pos = λ size ptr bytes h. ground arith;
  str_fault = λ size ptr left h. ground arith;
}

abbrev pub headers : KernelHeaders
headers = record { clone_thread = 65536; sizeof_stat = 144; sizeof_statx = 256 }

pub headers-IsHeaders : IsHeaders headers
headers-IsHeaders = record { stat_pos = omega arith; statx_pos = omega arith }

abbrev pub plain_map : (V : Type 0) → MapOps V
plain_map V = record {
  update = λ k v m j. if k == j then some v else m j;
  delete = λ k m j. if k == j then none else m j;
}

pub plain_map-IsRoomy : (V : Type 0) → IsRoomy (plain_map V)
plain_map-IsRoomy V = record { lookup-update = λ k j v m. refl; lookup-delete = λ k j m. refl }

-- Only openat, number 257, passes the filter, and forks are followed.
abbrev pub env : Env
env = record {
  follow_forks = 1;
  trace_filter_enabled = 1;
  trace_syscall_filter = λ id. if id == 257 then some 1 else none;
  headers = headers;
  pids = plain_map _;
  inflight = plain_map _;
  snapshots = plain_map _;
  sequences = plain_map _;
}

pub env-HasRoom : HasRoom env
env-HasRoom = record {
  pids = plain_map-IsRoomy _;
  inflight = plain_map-IsRoomy _;
  snapshots = plain_map-IsRoomy _;
  sequences = plain_map-IsRoomy _;
}

pub env-IsKernel : IsKernel env
env-IsKernel = record {
  pids = Roomy-IsMap (plain_map-IsRoomy _);
  inflight = Roomy-IsMap (plain_map-IsRoomy _);
  snapshots = Roomy-IsMap (plain_map-IsRoomy _);
  sequences = Roomy-IsMap (plain_map-IsRoomy _);
  headers = headers-IsHeaders;
}

abbrev pub targets : Map ℕ
targets pid = if pid == 7 then some 1 else none

abbrev pub open_args : List ℕ
open_args = 0 ∷ 4096 ∷ 0 ∷ 0 ∷ 0 ∷ 0 ∷ []

abbrev pub zero_args : List ℕ
zero_args = 0 ∷ 0 ∷ 0 ∷ 0 ∷ 0 ∷ 0 ∷ []

-- openat of the string, fork, and getpid, which is neither selected nor followed.
abbrev pub openat : SysEnterArgs
openat = record { id = 257; args = open_args }

abbrev pub fork_enter : SysEnterArgs
fork_enter = record { id = 57; args = zero_args }

abbrev pub getpid : SysEnterArgs
getpid = record { id = 39; args = zero_args }

abbrev pub opened : SyscallData
opened = record { ts = 90; syscall_id = 257; args = open_args; seq = 1; selected = 1 }

abbrev pub forked : SyscallData
forked = record { ts = 90; syscall_id = 57; args = zero_args; seq = 1; selected = 0 }

-- The result 3, and the result 8 of a fork.
abbrev pub returned : SysExitArgs
returned = record { id = 257; ret = 3 }

abbrev pub fork_exit : SysExitArgs
fork_exit = record { id = 57; ret = 8 }

-- The target thread with an openat in flight.
abbrev pub in_openat : Tracer
in_openat = record (init targets) {
  inflight_syscalls = λ tid. if tid == 7 then some opened else none;
}
