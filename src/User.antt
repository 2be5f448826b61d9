-- ===== src/User.antt =====
-- What a BPF program asks of the kernel during one run: the helpers that internal/bpf/tracer.c
-- calls. The helpers are not part of this repository, so they are parameters of the model.
use litrace.Prelude.{ℕ, ◌+◌, ◌*◌, ◌<◌, ◌≤◌, ◌≡◌, List, [], ◌∷◌, Bool, Option, none, some, length}

-- The outcome of bpf_probe_read_user and bpf_probe_read_user_str: a negative result, with the bytes
-- that stand at the front of the destination afterwards, or the bytes copied. A string's bytes
-- include its terminating zero, and the helper's result is their number.
pub data UserRead : Type 0 where
  fault : List ℕ → UserRead
  got : List ℕ → UserRead

-- One run of a BPF program. `read_user size ptr` and `read_user_str size ptr` are the helpers that
-- read the traced process's memory, `pid_tgid` and `now` the results of bpf_get_current_pid_tgid
-- and bpf_ktime_get_ns, `ring_has_room` says whether bpf_ringbuf_reserve succeeds. Memory may change
-- while a program runs: `read_user_first` is what bpf_probe_read_user gives trace_sys_exit before
-- the event is reserved, in track_child_process, which reads what is read again for the event.
pub record Call : Type 0 where
  pub pid_tgid : ℕ
  pub now : ℕ
  pub read_user : ℕ → ℕ → UserRead
  pub read_user_first : ℕ → ℕ → UserRead
  pub read_user_str : ℕ → ℕ → UserRead
  pub ring_has_room : Bool

-- The documented behaviour of the two read helpers: they write no more than `size` bytes; on
-- success bpf_probe_read_user copies exactly `size` bytes, and bpf_probe_read_user_str at least the
-- terminating zero.
pub record IsHelper (c : Call) : Type 0 where
  pub read_got :
      (size ptr : ℕ) (bytes : List ℕ) → c.read_user size ptr ≡ got bytes → length bytes ≡ size
  pub read_fault :
      (size ptr : ℕ) (left : List ℕ) → c.read_user size ptr ≡ fault left → length left ≤ size
  pub str_got :
      (size ptr : ℕ) (bytes : List ℕ) → c.read_user_str size ptr ≡ got bytes → length bytes ≤ size
  pub str_pos :
      (size ptr : ℕ) (bytes : List ℕ) → c.read_user_str size ptr ≡ got bytes → 0 < length bytes
  pub str_fault :
      (size ptr : ℕ) (left : List ℕ) → c.read_user_str size ptr ≡ fault left → length left ≤ size

-- Constants of the kernel's headers: CLONE_THREAD, sizeof(struct stat), sizeof(struct statx).
pub record KernelHeaders : Type 0 where
  pub clone_thread : ℕ
  pub sizeof_stat : ℕ
  pub sizeof_statx : ℕ

-- A little-endian word.
unfoldable pub le_word : List ℕ → ℕ
le_word [] = 0
le_word (b ∷ bytes) = b + 256 * le_word bytes

read_word_result : UserRead → Option ℕ
read_word_result (fault _) = none
read_word_result (got bytes) = some (le_word bytes)

-- bpf_probe_read_user into a local variable of eight bytes.
unfoldable pub read_word : Call → ℕ → Option ℕ
unfolding read_word_result
read_word c ptr = read_word_result (c.read_user 8 ptr)
