-- ===== src/Lib.antt =====
-- A verification of the Pintos kernels of this course repository and of the shell of Project0.
-- The C code is translated into functions by clauses; numbers are natural numbers, and the wrap
-- of a size_t is written out where a sum could wrap. none in an Option stands for a failed
-- ASSERT or a PANIC.
--
-- Base holds the shared names; Words the laws of the bit operations on machine words.
--
-- Bitmap: fs_PintOS/lib/kernel/bitmap.c, an array of 32-bit elements. Bitmap/Bits relates it to
-- an array of Booleans (view), Bitmap/Multiple and Bitmap/Scan do so for ranges and searches,
-- Bitmap/Tally counts.
--
-- Kernel: fs_PintOS/lib/kernel/list.c. Kernel/Linked is the doubly linked list on a heap of
-- elements, Refine, Remove and Size relate it to the sequence of its elements. Kernel/Order has
-- the operations on ordered lists, a list being the sequence of its elements: Runs the runs of
-- a list and their ends, Sort the natural merge sort (list_sort), Insert the ordered insertion
-- and list_unique. The fuel of a pass is the length of the list, since a round takes at least
-- one element; the fuel of list_sort is one more than that, since each pass but the last leaves
-- fewer runs than there were, and a list has no more runs than elements.
--
-- Kernel/Hash: fs_PintOS/lib/kernel/hash.c, a table as a set of elements of which no two are
-- equal. Count bounds the number of buckets, Buckets says when buckets hold a set, Unlink, Find
-- and Rehash are the steps on them, Refine the operations on the set. The fuel of the loop that
-- rounds the number of buckets down is one more than that number, since a round lowers it.
--
-- Fs: the file system. Fs/Device is the block device of fs_PintOS/devices/block.c, whose
-- sectors are known by what was last written to them (zeros, data, sector numbers, an inode).
-- Fs/FreeMap is fs_PintOS/filesys/free-map.c, over Bitmap; the write of the map to its own file
-- is the operation of a MapFile, of which Persists states that it succeeds and touches the
-- sectors of that file only. Fs/Inode is fs_PintOS/filesys/inode.c: the index of 122 direct
-- blocks, a first-level and a second-level block, and inode_create; Fs/Inode/Access is
-- inode_read_at, inode_write_at and extend_file. The fuel of the two loops is the number of
-- bytes asked for: a round that does not end the loop moves one at least. Fs/Inode/Open is the
-- list of open inodes: opening, removing and closing, with what a close gives back to the free
-- map (Fs/FreeMap/Release). Access/Read, Stored, Write and Round show what reads and writes
-- inside a file do to its bytes. Fs/File is fs_PintOS/filesys/file.c over it. Fs/Directory is
-- fs_PintOS/filesys/directory.c: Entry has the bytes of an entry, Slots the entries as they are
-- read, Lookup, Add and Erase the operations on names, Open those on the list of open inodes.
--
-- Devices: fs_PintOS/devices/intq.c, the queue between threads and interrupt handlers, with its
-- lock of fs_PintOS/threads/synch.c; Refine relates it to a queue of bytes.
--
-- Libc: fs_PintOS/lib/string.c, on a memory that is a list of bytes with its indices as
-- pointers. Libc/Block has the functions on blocks, Libc/Text those on texts that a null byte
-- ends; their fuel is the size of the memory, since each round moves on by a byte and a read
-- outside stops. Libc/Search is the binary search of fs_PintOS/lib/stdlib.c; its fuel is one
-- more than the number of elements, since a round leaves fewer of them; Search/Half shows what
-- each half can hold.
--
-- Shell: Project0/jobs.c, the job list of the shell. Shell/Jobs has the operations, First what
-- a scan of the array finds, Add the addition and deletion entry by entry, Jids the numbers of
-- the jobs.
--
-- Threads: Project1/thread.c, the scheduler with priorities. Threads/Scheduler has the ready
-- list and the operations up to the switch of threads, Fair the order of the ready list and the
-- choice of the running thread, Awake what becomes of an unblocked thread. Threads/Synch is
-- Project1/synch.c over it, semaphores and locks. The functions of a lock run with interrupts
-- on and are given part by part (Phase), since another thread can run between the work on the
-- semaphore and the write of the holder: Change is what one part changes, Owner which thread
-- has the lock, Exclusion the steps of the system and what every reachable state keeps; Wake is
-- the order of the waiting threads. Threads/Timer is Project1/timer.c over both, the sleeping
-- threads and the handler that wakes them: Unblock is one thread that wakes up, Wake the
-- handler, Sleep a thread that goes to sleep.
--
-- Vm: the virtual memory of vm_PintOS. Vm/Page is vm/page.c, the supplemental pages on the
-- linked list of Kernel/Linked: Walk is the lookup over a copy of the list's ends, Create the
-- making of a page. Vm/Swap is vm/swap.c over Bitmap, which vm_PintOS has the same source for,
-- and the device of Fs/Device: Load reads a slot, Round puts a page into a slot and brings it
-- back, Store shows what becomes of the lock in a store. Vm/Outcome is code that takes locks.
-- The fuel of the lookup is the number of elements or more.
--
-- Not modelled: the start-up code, drivers, interrupts and assembly, user programs and tests,
-- the formatted output, the eviction of frames, bitmap_write of the free map to its own file,
-- which stands as the operation of a MapFile since the file layer is built on the free map
-- itself, and the locks around the file system's operations, which run one at a time here.
pub mod Base
pub mod Words
pub mod Bitmap
pub mod Fs
pub mod Shell
pub mod Kernel
pub mod Threads
pub mod Devices
pub mod Libc
pub mod Vm
