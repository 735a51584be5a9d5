-- ===== src/Lib.antt =====
-- Verification library of Vyro OS, a kernel in C with its memory management, inter-process
-- communication, users, networking, cryptography and drivers.
--
-- The files and the code that each is about:
--   Base             what all parts share: tests on numbers (Base/Tests), arrays as lists (Base/Lists),
--                    bits of a byte (Base/Bits), bytes and little-endian numbers (Base/Bytes),
--                    circular buffers as sequences (Base/Ring), tables searched from the front
--                    (Base/Slots), what every entry has (Base/Every), where an appended list is
--                    cut (Base/Split), C strings (Base/Text: `scpy`, `scmp` of kernel/security.c and
--                    their copies in other files), C `int`s (Base/Int).
--   Memory/Heap      kernel/heap.c: `heap_init`, `kmalloc`, `kfree`, `coalesce`. The linked headers are
--                    the list of blocks in address order; Tiles holds the invariant, Grant and
--                    Malloc are about `kmalloc`, Coalesce, Release and Free about `kfree`,
--                    RoundTrip about the two together.
--   Memory/Memmap    kernel/memmap.c: the firmware's map from E820 and UEFI tables, and its totals.
--   Memory/Pmm       kernel/pmm.c: the page bitmap; Bitmap counts marks, Alloc is about
--                    `pmm_alloc_page` and `pmm_free_page`, Mark about `mark_range`, Apply about
--                    `pmm_init` and `pmm_apply_memmap`, which reads the map of Memory/Memmap.
--   Memory/Overlap   the pages of kernel/pmm.c against the region of kernel/heap.c.
--   Ipc/Pipe         the pipes of kernel/ipc.c: Refine reads one as a bounded queue of bytes, Table is
--                    about the calls on the table of pipes.
--   Ipc/Messages     the message queue of kernel/ipc.c: Order is about what is sent and received.
--   Klog             kernel/klog.c: Lines reads the log as a bounded history.
--   Security         kernel/security.c: Password is about `store_pw` and `check_pw`, Login about
--                    `user_add` and `auth_login`.
--   Net/Arp          kernel/arp.c without the waiting of `arp_resolve`; Cache is about its cache and
--                    an exchange of two machines.
--   Net/Checksum     `net_checksum` of kernel/net.c and the sums of kernel/tcp.c and kernel/udp.c;
--                    Fold is about their loops.
--   Net/Tcp/Tcb      the control block of kernel/tcp.h with its buffers and the functions on one
--                    block: Rtt is about `rtt_sample`, Emit and Window about `try_emit`, Slide
--                    about `slide_snd_window`.
--   Net/Tcp/Handle   the `switch` of `tcp_input` in kernel/tcp.c: Edges is about the states, Data
--                    about the bytes received, Bounds and Valid about what stays in bounds.
--   Net/Tcp/Wire     the frames that `build_and_send` and `build_and_send_data` build and
--                    `tcp_input` reads; Parse is about both and about what is read of any frame.
--   Net/Tcp/Tick     `tcp_tick` on one block: Resend is about the retransmission, GiveUp about a SYN
--                    without an answer.
--   Net/Tcp/Table    the calls on the table of blocks, and Net/Tcp/Input those that open and close
--                    with `tcp_input` and `tcp_tick`: Steps and Reach are about every sequence of
--                    calls and frames, Handshake and Transfer about two machines.
--   Net/Udp          the ports and frames of kernel/udp.c; Deliver is about a datagram to a port.
--   Storage/Block    kernel/block.c with the windows of kernel/parttab.c and the slots of
--                    kernel/lba_xlate.c; Nesting is about partitions on disks.
--   Storage/Translate  `xlate_read` of kernel/lba_xlate.c; Sectors is about its two ways.
--   Storage/Partition  `parttab_probe` of kernel/parttab.c; Limits is about the entries.
--   Drivers/Rtc      drivers/rtc.c: Convert is about the registers in each mode of the clock.
--   Notify           kernel/notify.c: Post is about posting and expiry.
--   Vfs              kernel/vfs.c: Chain reads the linked siblings as a list of entries, Dir is about
--                    finding and creating in a directory, Unlink about removing.
--   Net/Sockets      kernel/sockets.c: Table is about the lookup by descriptor, Calls about each call.
--   Crypto/Chacha20  kernel/chacha20.c: Stream is about the key stream and the cipher.
--   Crypto/Poly1305  kernel/poly1305.c, limb by limb.
--   Crypto/Aead      kernel/aead.c over the two; Open is about sealing and opening.
--   Crypto/Bignum    kernel/bignum.c: Value is about comparing, adding and subtracting limbs, Digits
--                    about bits and bytes cut out of them, Multiply, Reduce and Power about the
--                    arithmetic by a modulus, Bytes about reading and writing. Base/Digits has the
--                    laws of `|` on numbers of any width.
--   Crypto/Sha256    kernel/sha256.c: Padding is about the padded message, Chain about its blocks.
--   Crypto/Hkdf      kernel/hkdf.c: Expand is about HMAC and the blocks of `hkdf_expand`.
--   Crypto/Rsa       kernel/rsa.c: Encoding is about the bytes that are accepted, Verify about the
--                    whole check.
--   Drivers/Keyboard drivers/keyboard.c: Input reads its buffer as a queue of characters.
--
-- How the code is read. A function on static variables takes the state of its file as a record and
-- returns the new one with the result. Numbers are natural numbers; where C wraps at 32 or 64 bits,
-- the remainder is written out, and a subtraction that cannot wrap stands as it is. Pointers are
-- addresses, with 0 for the null pointer; a pointer into a table is an index. Strings and buffers
-- are lists of bytes. A loop over an array is a recursion on the list or on the number of rounds
-- left; `xor_loop` and `update_loop` take the number of bytes as their bound, which is enough since
-- a round takes at least one; the loops of kernel/tcp.c send a byte or more in a round, the checksum
-- is folded in two rounds, and a read of a disk goes through no more windows than there are
-- devices; the padding of SHA-256 looks at 64 lengths, of which one ends where it should, and
-- `hkdf_expand` adds a byte or more in a round. The siblings of a directory are fewer than the nodes
-- there are, which bounds the loops of kernel/vfs.c.
-- What a port or the firmware gives is an argument, and so is what the two disk drivers read.
--
-- Not modelled: the contents of heap blocks, so also the zeros that `kmalloc_zero` writes; calls
-- that only print or name a constant; port I/O, interrupt and descriptor tables, graphics, assembly
-- and the two other systems in the repository; signals, tasks, packages, the writes of the block
-- layer and its probing of drivers, the other protocols, FAT32, the random generator, elliptic
-- curves, PSS signatures and certificates; kernel/bignum_4k.c, which repeats kernel/bignum.c and
-- kernel/rsa.c with 128 limbs: the definitions of Crypto/Bignum and Crypto/Rsa take the number of
-- limbs from the lists or as an argument. The selftests with published vectors are left out, some of their vectors
-- are tests. Of kernel/hkdf.c, an info that does not fit in `hmac_in` is left out. Of kernel/tcp.c,
-- negative descriptors and what lies behind the end of a frame or of a buffer are left out. Of
-- kernel/vfs.c, memory that was freed is not given out again. Of `block_get`, an index of 2 ^ 31 or
-- more, which C compares as a negative one, is left out.
pub mod Base
pub mod Crypto
pub mod Drivers
pub mod Ipc
pub mod Klog
pub mod Memory
pub mod Net
pub mod Notify
pub mod Security
pub mod Storage
pub mod Vfs
