-- ===== src/Tests/Format.antt =====
-- Examples of the theorems on printed flags, with some of the constants of Linux on x86-64.
use litrace.Prelude.{
  replicate, bit_and, ◌==◌, ◌-◌, ◌^◌, [], ℕ, ◌≡◌, refl, arith, List, some, if◌then◌else◌,
}
use litrace.FilePath.{bytes_eq}
use litrace.Text.{codes, decimal, join, digits, digit, hexadecimal, prefixed_hex}
use litrace.Format.{
  format_enum, take_flag, flag_loop, with_remaining, format_flags, mmap_flags, open_mode_access,
  open_mode_flags, format_mmap_flags, format_open_flags,
}
use litrace.Syscalls.{nr_umask}
use litrace.Types.{Event, is_negative, u32}
use litrace.Format.Ret.{
  leading_zero, octal, format_mode, format_errno, signed_decimal, format_ret_default, format_ret,
}
use litrace.Format.Ret.Read.{says_error, ret_value, format_ret-says_error, format_ret-ret_value}
use litrace.Tests.Wire.{sent}
use litrace.Format.Parts.{text_value}
use litrace.Format.Calls.{
  open_constants, format_mmap_flags-text_value, format_open_flags-text_value,
}

-- The other constants are zero here.
unix : List ℕ → ℕ
unfolding bytes_eq
unix name =
    if bytes_eq name (codes "MAP_PRIVATE")
    then 2
    else if bytes_eq name (codes "MAP_ANON")
    then 32
    else if bytes_eq name (codes "O_ACCMODE")
    then 3
    else if bytes_eq name (codes "O_RDWR")
    then 2
    else if bytes_eq name (codes "O_CREAT")
    then 64
    else 0

mmap_text : format_mmap_flags unix 2147483682 ≡ codes "MAP_PRIVATE|MAP_ANONYMOUS|0x80000000"
unfolding unix format_mmap_flags format_flags flag_loop take_flag with_remaining mmap_flags join
    prefixed_hex hexadecimal digits digit bytes_eq
mmap_text = refl

open_text : format_open_flags unix 66 ≡ codes "O_RDWR|O_CREAT"
unfolding unix format_open_flags format_enum format_flags flag_loop take_flag with_remaining
    open_mode_access open_mode_flags join prefixed_hex hexadecimal digits digit bytes_eq
open_text = refl

format_mmap_flags-text_value_example :
    text_value (mmap_flags unix) (format_mmap_flags unix 2147483682) ≡ some 2147483682
format_mmap_flags-text_value_example = format_mmap_flags-text_value unix 2147483682 (omega arith)

format_open_flags-text_value_example :
    text_value (open_constants unix) (format_open_flags unix 66) ≡ some 66
format_open_flags-text_value_example = format_open_flags-text_value unix 66 (omega arith)

-- A made-up name for every error but number 999.
errno_name : ℕ → List ℕ
errno_name errno = if errno == 999 then [] else codes "EPERM"

abbrev umask_event : Event
umask_event = record sent { syscall_id = 95; ret = 18 }

umask_text : format_ret errno_name errno_name umask_event ≡ codes "022"
unfolding format_ret format_mode octal leading_zero digits digit replicate
umask_text = refl

error_text :
    format_ret errno_name errno_name (record sent { ret = 2 ^ 64 - 999 }) ≡ codes "-1 (error 999)"
unfolding format_ret format_ret_default format_errno signed_decimal errno_name decimal digits digit
error_text = refl

format_ret-says_error_example :
    says_error (format_ret errno_name errno_name umask_event) ≡ is_negative 18
format_ret-says_error_example = format_ret-says_error errno_name errno_name umask_event

format_ret-ret_value_example :
    ret_value 95 (format_ret errno_name errno_name umask_event)
    ≡ some (if 95 == nr_umask then bit_and (u32 18) (2 ^ 16 - 1) else 18)
format_ret-ret_value_example = format_ret-ret_value errno_name errno_name umask_event refl
