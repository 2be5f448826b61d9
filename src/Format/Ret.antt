-- ===== src/Format/Ret.antt =====
-- internal/format_ret.go: how a result is shown. The names and texts of errors belong to
-- golang.org/x/sys/unix and to Go's syscall package.
pub mod Read
use litrace.Prelude.{
  ℕ, zero, suc, ◌+◌, ◌-◌, ◌^◌, List, [], ◌∷◌, ◌++◌, Bool, true, false, not, ◌&&◌, ◌==◌, Option,
  none, some, if◌then◌else◌, bit_and, length, replicate,
}
use litrace.Types.{Event, is_negative, u32}
use litrace.Syscalls.{nr_mmap, nr_umask}
use litrace.Text.{codes, digits, decimal, prefixed_hex}
use litrace.PathFilter.{is_empty}

-- formatPtr
unfoldable pub format_ptr : ℕ → List ℕ
format_ptr raw = if raw == 0 then codes "NULL" else prefixed_hex raw

-- The `#` of a number in octal: a zero in front, unless one is there.
unfoldable pub leading_zero : List ℕ → List ℕ
leading_zero [] = []
leading_zero (b ∷ bs) = if b == 48 then b ∷ bs else 48 ∷ b ∷ bs

-- `%#03o`: three digits at least.
unfoldable pub octal : ℕ → List ℕ
octal n = let ds = digits 8 64 n [] in leading_zero (replicate (3 - length ds) 48 ++ ds)

-- formatMode
unfoldable pub format_mode : ℕ → List ℕ
format_mode raw = octal (bit_and (u32 raw) (2 ^ 16 - 1))

-- `%d` of an int64, given by its 64 bits.
unfoldable pub signed_decimal : ℕ → List ℕ
signed_decimal n = if is_negative n then 45 ∷ decimal (2 ^ 64 - n) else decimal n

module _ (errno_name errno_text : ℕ → List ℕ) where
  -- The end of formatRetDefault, for the bits of -ret.
  unfoldable pub format_errno : ℕ → List ℕ
  format_errno errno =
      let name = errno_name errno in
      if is_empty name
      then codes "-1 (error " ++ signed_decimal errno ++ codes ")"
      else codes "-1 " ++ name ++ codes " (" ++ errno_text errno ++ codes ")"

  -- formatRetDefault
  unfoldable pub format_ret_default : ℕ → List ℕ
  format_ret_default ret = if is_negative ret then format_errno (2 ^ 64 - ret) else decimal ret

  -- formatRet
  unfoldable pub format_ret : Event → List ℕ
  format_ret ev =
      if is_negative ev.ret
      then format_ret_default ev.ret
      else if ev.syscall_id == nr_mmap
      then format_ptr ev.ret
      else if ev.syscall_id == nr_umask
      then format_mode ev.ret
      else format_ret_default ev.ret
