-- ===== src/Lib.antt =====
-- A verification library for the kernel of cenix, an operating system for the 68000: definitions
-- that follow the C code function by function, and theorems about them.
--
-- The parts and the files that model them:
--   * core/kernel/linked_list.h, the lists that all kernel queues are made of. LinkedList has a
--     function for each macro on lists with a container (append for LIST_APPEND, remove for
--     LIST_REMOVE, and so on). A struct is reached by its address, and a link field of all structs
--     is a map from addresses to links, so that aliasing is as in C: two containers used with one
--     field share the map. LinkedList/Shape says which sequence a container and a map stand for.
--   * core/kernel/scheduler.c. Kernel/State holds the memory of the kernel as a record: the global
--     variables, the threads, endpoints, messages and heap kinds by address, and a map for each
--     link field. Kernel/Scheduler has one function per C function; try_context_switch is the
--     composition of next_thread (the search through the priority queues), save_current and
--     load_next, in the order of the code. The register block is in Kernel/Arch.
--   * core/kernel/ipc.c in Kernel/Ipc: endpoint_send and endpoint_receive hand a message over or
--     block their caller by suspend_thread; they wake the partner by resume_thread.
--   * core/kernel/threads.c in Kernel/Threads (ids, the hash table of threads) and
--     Kernel/Threads/Handlers (what a thread capability can be asked for, destruction, moves).
--     Handlers run with their object locked, by heap_lock and heap_unlock of core/kernel/heap.h,
--     which stand in Kernel/State.
--   * core/kernel/capabilities.c in Kernel/Capabilities: slots by address in a record of their own,
--     with the look-up, which locks nodes in the kernel record; Kernel/Capabilities/Slots moves,
--     copies and deletes a capability, on the lists without a container of NoContainer, and
--     Kernel/Capabilities/Nodes has the handlers of a node. Kernel/Capabilities/Reached has the
--     description of where an address leads, without locks and fuel, that the theorems refer to.
--     A call of heap_free is recorded in the space (`freed`); heap_free itself is in Kernel/Heap.
--   * the rest of core/kernel/capabilities.c: Kernel/Capabilities/Populate has the relative and the
--     absolute look-up, populate_capability_slot, and the handlers of untyped memory and of an
--     address space; Kernel/Capabilities/Invoke has invoke_capability, update_capability_resource,
--     and, as they work on slots, set_root_node of core/kernel/threads.c and transfer_capabilities
--     of core/kernel/ipc.c.
--   * core/kernel/heap.c in Kernel/Heap: the block list, with headers by address in a record of its
--     own. heap_alloc is composed of the search for blocks (find_blocks), the moves of blocks out
--     of the way (move_out, which calls heap_alloc again) and the new header (set_up).
--   * core/common/jax.c, the reader of the archive format, in Jax: an iterator over the bytes of a
--     memory (Base/Memory), with open_jax, jax_next_file and jax_find. utils/jax/create.c and
--     utils/jax/endianness.c, which write archives, in JaxTool; its theorems bring both together.
--   * core/initrd_fs/main.c, the file system over an archive, in InitrdFs: next_file_in_dir,
--     handle_read, handle_open, handle_fd_message and handle_ipc_message on a server state.
--   * core/vfs_server/structures.c in VfsServer, core/vfs_server/mount_lists.c in
--     VfsServer/MountLists and core/vfs_server/namespaces.c in VfsServer/Namespaces: words of memory
--     by address, and the calls made to the kernel.
--   * core/common/bflt.c, the loader of binaries, in Bflt: segments, relocations and global offset
--     table on a memory of bytes.
--   * core/include/errno.h in Errors, for the kernel and the servers.
--
-- Conventions. A pointer is a number and NULL is 0. Machine words keep their wrap-around, written
-- out as a remainder. The bits of `exec_mode` and of the thread flags are Booleans of their own. A
-- walk along a list is a recursion on fuel, `none` when the fuel runs out, and its theorems ask
-- for more fuel than the list has items, so that a result is always there; the search for a thread
-- is bounded by the 64 queues, the search for an id by the words of the bitmap, and the look-up of
-- a capability asks for fuel for each node on its way. heap_alloc takes fuel for its search, which
-- does not always end. Filling a slot, a copy of a capability and a call through one take fuel for
-- the depth that is asked for, and jax_find for the files of the archive, bflt_load for the global offset table,
-- the loops of core/vfs_server for the nodes of a list and the mount points of a bucket.
--
-- Arguments of the model. heap_alloc, where a thread or an endpoint is allocated, is an argument:
-- the theorem about alloc_thread asks that it keeps the table and gives a new address. The
-- transfer of capabilities in a message and the deletion of a root capability are arguments of the
-- thread and endpoint operations, and the destructors of threads and endpoints, the allocation of
-- each type of object and the handlers that a call may run are arguments of the capability
-- operations, as each part has a record of its own. What the system calls of the servers answer,
-- and for core/vfs_server what they leave in the memory, is an argument, as is the callback of a
-- walk or a search for a slot. In the jax utility, what the walk over the disk finds is an
-- argument; its writes succeed, but for those of no bytes, which fwrite answers with 0, and so do
-- its fopen and malloc. Its host is a little-endian one, as the byte order helpers have it, and
-- sizes on the disk are not negative.
--
-- Not modelled: the initial layout of the heap, the start of the kernel, the assembly code and
-- devices of the platform, debug output, the main loop of core/initrd_fs and its mounting, the
-- set-up, mount points and directories of core/vfs_server, the server in core/process_server, the
-- other commands of utils/jax, and the programs in test. Of core/common, memcpy, memset, memmove
-- and printf come from elsewhere.
--
-- Tests of each part, runs at concrete states, stand in its Tests module.
pub mod Base
pub mod LinkedList
pub mod NoContainer
pub mod Kernel
pub mod Jax
pub mod JaxTool
pub mod Errors
pub mod InitrdFs
pub mod VfsServer
pub mod Bflt
