-- ===== src/Net/Tcp.antt =====
-- kernel/tcp.c: connections, segments and timers, in child modules. Tcb has the control block, its
-- timers and its sending side, Handle the arrival of a segment at a connection, Wire the bytes of a
-- frame, Tick the timers, Table and Input the calls on the sixteen connections.
pub mod Tcb
pub mod Handle
pub mod Wire
pub mod Tick
pub mod Table
pub mod Input
pub mod Tests
