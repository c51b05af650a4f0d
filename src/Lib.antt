-- ===== src/Lib.antt =====
-- A verification library for three operating-system projects: a user-level thread library
-- (Pthreads/my_pthread.c, my_pthread_t.h), a paging memory manager (Memory_Manager/totalrecall.c,
-- totalrecall.h), and a file system on a block device for FUSE
-- (Simple_File_System/src/sfs.c, block.c, block.h). The programs meet where the memory manager's
-- copy of the thread library allocates with myallocate and protects pages on a switch.
--
-- Base holds Boolean tests, outcomes and stores. C code is a function into `Run`: it ends with a
-- value, faults, exits, or, in the model only, has spent the rounds that it was given.
--
-- Threads models my_pthread.c. State has the control blocks, the three priority queues and the
-- running queue as cells of a store; Tally and Load are the two halves of createRunningQueue,
-- Scheduler is scheduler, my_pthread_yield and sig_handler, Mutex the mutex calls and the threads
-- that make them, Exit my_pthread_exit and my_pthread_join, Create my_pthread_create: its part from
-- the control block on, and in Create/Begin the whole of it. Paged is createRunningQueue of the
-- memory manager's copy, Memory_Manager/my_pthread.c, its scheduler, which protects the pages of
-- the thread that leaves, its create, its exit and the end of its join. Chain and Apart say where
-- the pointers of the store lead. Contexts and timers are the system's: a run of the scheduler ends
-- in a `Switch` that names what to save, what to resume and the timer to set.
--
-- Memory models totalrecall.c. Word has the conversions of the C types, Region the allocator that
-- schedulerallocate and shalloc share, Release mydeallocate, Allocate myallocate with its page
-- accounts, Pages evictPage, swapPage and swapFileGrab, Layout buildKernalSpace, Fault
-- pageFaultHandler and protectPages. Calls of the operating system are parameters that say whether
-- each succeeds. The page table is kept apart from the regions, and the memory that myallocate reads
-- is the memory that the running thread sees. Output is left out.
--
-- FileSystem models block.c and sfs.c of the file system. Disk has the block device, Bitmap the
-- byte maps, Bytes how integers lie in a block, Inode struct inode and getBlockByInodeNumb, Path
-- strtok and getInodeNumbFromPath, Attr sfs_getattr, Dirs sfs_opendir, sfs_readdir and
-- sfs_releasedir, Create substring and sfs_create, Unlink sfs_unlink, Init sfs_init and disk_open.
-- A block is a function from bytes; -1 is its bit pattern, and an inode number that takes the
-- search for its block out of the range of int faults. Pointers read back from the disk point to
-- nothing. FUSE's filler, the time, the random numbers, what the stack and the memory around a
-- string hold, which reads and writes fail, and the value that clearDataBlock leaves where it ends
-- without a return are parameters. Operations that only log and return 0 are not modelled, nor are
-- the log, the testers and, of Memory_Manager/my_pthread.c, the mutex calls and the beginning of
-- my_pthread_join.
--
-- Loops run on rounds, and each theorem that a loop ends says how many are enough: one more than the
-- nodes of a list, one more than the pages whose reference bit is set, two more than the bytes of a
-- request, 5000 for a map, 640000 for the bytes of 5000 inodes, 2 ^ 31 for the size of a file. Structural
-- loops with a fixed number of rounds, as over the 1600 pages, the 3900 slots of the swap file and the
-- ten entries of a directory, need none.
pub mod Base
pub mod Threads
pub mod Memory
pub mod FileSystem
