-- ===== src/Ipc.antt =====
-- kernel/ipc.c and kernel/ipc.h: pipes, the message slots and the signal counter.
pub mod Pipe
pub mod Messages
