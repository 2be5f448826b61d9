-- ===== src/Syscalls.antt =====
-- internal/bpf/syscalls/x86_64.h: the numbers of the system calls, in the file's order.
mod Numbers1
mod Numbers2
mod Numbers3
mod Numbers4
mod Numbers5
mod Numbers6
pub use Numbers1.*
pub use Numbers2.*
pub use Numbers3.*
pub use Numbers4.*
pub use Numbers5.*
pub use Numbers6.*
