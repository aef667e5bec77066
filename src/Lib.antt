-- ===== src/Lib.antt =====
-- LoriOS, a UNIX-like operating system for x86-64: the kernel's core data structures and the parts
-- of memory management, file systems, terminals and networking that are built on them.
--
-- The parts and how they interact. The kernel allocates memory in three layers: physical blocks
-- from a bitmap (Kernel/src/Arch/x86_64/PhysicalAllocator.cpp), regions of an address space with
-- the memory objects mapped there (Kernel/src/Memory/AddressSpace.cpp), and blocks of the slab
-- allocator behind kmalloc (Kernel/src/Memory/KMalloc.cpp). Containers stand on kmalloc: List and
-- FastList (Kernel/include/List.h), Vector (Kernel/include/Vector.h), RingBuffer
-- (Kernel/include/RingBuffer.h), DataStream (Kernel/src/Streams.cpp) and CharacterBuffer
-- (Kernel/src/CharacterBuffer.cpp). Pipes and local sockets read and write a DataStream, a pseudo
-- terminal (Kernel/src/TTY/PTY.cpp) has a CharacterBuffer for each side, a message endpoint queues
-- messages in a RingBuffer, an address space keeps its regions in a List, and tmpfs
-- (Kernel/src/FileSystem/Tmp.cpp) keeps files in kmalloc blocks and directories in Lists. The
-- virtual file system (Kernel/src/FileSystem/Fs.cpp) takes paths apart with strtok_r
-- (Kernel/src/String.cpp) and String::Split (Kernel/include/String.h) and walks from node to node
-- by the methods of a file system. A TCP socket (Kernel/src/Net/TCP.cpp) keeps what it received in
-- a DataStream, and the sockets are found by their ports in a HashMap (Kernel/include/Hash.h).
-- Data that threads share is guarded by spin locks and by ReadWriteLock (Kernel/include/Lock.h).
--
-- The files.
--   Prelude: numbers, tests, lists, memory blocks, machine words and their bits.
--   Kmalloc: the interface of kmalloc. The slab allocator is not in the repository. A new block has
--     the size asked for and any content; running out of memory is a panic of the kernel.
--   LinkedList: the sequence that a List holds, and insertion before an iterator (List::insert).
--   AddressSpace: Region is MappedRegion. find_available, allocate_at, range_in_region and
--     address_to_region are FindAvailableRegion, AllocateRegionAt, RangeInRegion and
--     AddressToRegion. AddressSpace.Space has the address space with its objects and their reference
--     counts: map_vmo, allocate_anonymous, unmap_region, unmap_memory and fork.
--   PhysicalAllocator: allocate, free, mark_used, mark_free and free_large are
--     AllocatePhysicalMemoryBlock, FreePhysicalMemoryBlock, MarkMemoryRegionUsed,
--     MarkMemoryRegionFree and FreeLargePhysicalMemoryBlock.
--   Stream.DataStream: write, read, peek and is_empty are the methods of DataStream.
--   CharacterBuffer: write, read and flush are its methods, with the line editing of a terminal.
--   RingBuffer: enqueue_one and enqueue are the two Enqueue, dequeue_one and dequeue the two
--     Dequeue, drain and drain_count the two Drain, and resize is Resize.
--   Vector: the methods of Vector for a trivial element type, by their names.
--   Pty: slave_read, master_read, master_write, slave_write, watch_master and watch_slave are the
--     methods of PTY, set_mode is TCSETS, and write_master_all is the loop of PTYDevice::Write.
--   TmpFs: read, write and truncate are the methods of TempNode on files, reallocate is
--     ReallocateNode. TmpFs.Namespace has create, create_directory, link, unlink, open_node and
--     close_node on the nodes of a volume, which entries and handles share.
--   CString: itoa, reverse, hex_string_to_pointer, memcpy, memcmp, strchr, strnchr, strrchr, strspn,
--     strcspn, strtok_r, strcmp_eq and strncmp_eq are the functions of Kernel/src/String.cpp.
--   Path: canonicalize_path and base_name are CanonicalizePath and BaseName of
--     Kernel/src/FileSystem/Fs.cpp, and split is BasicString::Split. Path.Nodes has resolve_path,
--     follow_link and resolve_parent over the methods of nodes, and Path.Nodes.Rename has rename.
--   HashMap: hash_u is HashU; insert, remove, remove_value, get and find are the methods of HashMap.
--   Tcp: State, Header, Packet and Socket are the types of TCPSocket. Tcp.Receive has on_receive
--     with a function for each state. Tcp.Ports has the table of ports with acquire_port,
--     allocate_port, release_port, find_socket and bind. Tcp.Calls has listens, send_to, close and
--     on_receive_tcp. Connect and ReceiveFrom wait within the call and are two functions each:
--     connect_starts and connect_ends, receive_starts and receive_ends. The network below, SendIPv4,
--     is an argument of them.
--   ReadWriteLock: Step is a step of one thread in the four methods of the lock, Reach the states
--     that any number of threads can reach.
-- A file Tests below a component has its tests.
--
-- How the code is modelled. A method is a function from the state before it to what it returns
-- and the state after it. Numbers of 64 and 32 bits keep their wrap-around. A block of memory
-- is the list of its elements, an object that is shared stands in a store and is named by its
-- place there, and `none` is an access outside a block or to a deleted object, a failed
-- assertion, a panic, or a lock that is never released. Pointers into a ring buffer keep their
-- addresses, since Resize compares them, and the pointer sums of Dequeue and Drain wrap around
-- at 64 bits. Unmapping pages from the page table is recorded as a list of calls.
--
-- Bounds and fuel. UnmapMemory starts over after each removal: it has one unit of fuel for each
-- region and one more, which is enough since a round that goes on removes a region. DataStream
-- doubles its buffer until the bytes fit: the fuel is the size needed and two more, which is
-- enough since each round adds at least one to a size that is positive. The loop of
-- PTYDevice::Write has no bound in the code, so its fuel is an argument. All other loops are over
-- a list or a count. Where a theorem bounds sizes, the sums of the code stay below the wrap-around
-- by it: 2 ^ 62 bytes for streams and rings, 2 ^ 30 elements for a vector, 2 ^ 32 - 1024 bytes for
-- a tmpfs file, 2 ^ 32 physical blocks, fewer than 2 ^ 32 threads at a ReadWriteLock. itoa has 64
-- units, one for each bit of its number. The loop of CanonicalizePath has one unit for each token
-- and one more, since a round passes a token or removes one. The search for a port has one unit for
-- each ephemeral port. ResolvePath and FollowLink call each other without a bound in the code, so
-- the depth of the calls that the kernel stack has room for is an argument.
--
-- Not modelled. Apart from ReadWriteLock, locks are held for a whole call and calls do not
-- interleave. TryAcquireWrite and Semaphore. The list nodes and the node cache of List, ReadDir and
-- FindDir of tmpfs, its removal of whole directories, and debug output. Of the strings: those
-- functions of String.cpp that are not named above, and StringView. Of Fs.cpp: the root of the
-- volumes, the registration of drivers, and the functions that only pass a call on to a node. Of
-- TCP: the checksum, the socket options and the list of closed sockets.
-- Of the rest of the kernel: processes, threads and scheduling, system calls, page tables, device
-- drivers, disk file systems, the network below and beside TCP, message passing, the video and log
-- output, and the boot code; and the user library. They are drivers of hardware, or not yet
-- reached.
pub mod Prelude
pub mod Kmalloc
pub mod LinkedList
pub mod AddressSpace
pub mod Stream
pub mod PhysicalAllocator
pub mod CharacterBuffer
pub mod TmpFs
pub mod RingBuffer
pub mod Vector
pub mod Pty
pub mod CString
pub mod Path
pub mod HashMap
pub mod Tcp
pub mod ReadWriteLock
