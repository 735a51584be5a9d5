-- ===== src/Net.antt =====
-- The networking parts of the kernel.
pub mod Sockets
pub mod Arp
pub mod Checksum
pub mod Tcp
pub mod Udp
