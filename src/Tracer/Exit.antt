-- ===== src/Tracer/Exit.antt =====
-- trace_sys_exit of internal/bpf/tracer.c: the event that it fills in (`Event`), and when it is
-- submitted (`Emit`); then what the event says (`Head`) and that it can be taken apart
-- (`Parts`, `WellFormed`).
pub mod Event
pub mod Emit
pub mod Parts
pub mod WellFormed
pub mod Head
