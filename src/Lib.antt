-- ===== src/Lib.antt =====
-- OpenBLT: a development about the program's own core, part by part.
--
-- The kernel (blt/kernel) keeps its objects in a table of resources. Kernel.NodeList models
-- list.c: circular doubly linked lists on an explicit memory, where a field is a function from
-- addresses; its theorems say that each operation acts as one on a list of nodes, and the other
-- kernel modules hold such lists as lists. Kernel.Queue models queue.c in the same way.
-- Kernel.State holds the state that resource.c, task.c, sem.c, port.c and the scheduler of
-- kernel.c share: the resource table with its free list, the resources with their wait queues, the
-- tasks, semaphore counts and ports, each by address. Kernel.Resource models resource.c and
-- task_wake, Kernel.Sched wait_on, preempt and swtch, Kernel.Sem sem.c and Kernel.Port port.c. A
-- function of the source is a function on the state under its own name in snake case; a panic is
-- none. Kernel.Memory models memory.c: the list of free physical pages, the pages of the kernel's
-- virtual memory and the pools of small blocks. Kernel.Aspace models the page tables of aspace.c
-- and the search for free virtual pages, Kernel.Area the rest of it: areas with the page groups
-- that they share. Kernel.Demo is a small kernel at which the theorems are tried.
--
-- The C library (blt/lib/libc) is in Libc: Libc.Str models string.c on a memory of bytes,
-- Libc.Files the requests of vfs.c and fdl.c to the file system server, whose turns are those of
-- Vfs.Server.Main, Libc.Snprintf snprintf.c with a list of arguments, Libc.Qsem the semaphores of
-- qsem.c for machines with atomic_add, shared by threads whose steps come in any order.
-- Console.Screen and Console.Ansi model the terminal of the console server, vt100.c of
-- blt/srv/console2: a grid of cells with a cursor and a scrolling region, and the state machine
-- that reads control sequences. Vfs models the file system server of blt/srv/vfs: Vfs.Mounts fs.c
-- and super.c, Vfs.Rootfs and Vfs.Bootfs the two file systems that it is built with, Vfs.Path
-- path.c, Vfs.Server the requests of vfs.c and shm.c on a client's descriptors, with the file
-- systems' operations as a parameter. Util models blt/util/bootmaker.c, which writes the image
-- that the boot file system reads: Util.Ini the description, Util.Image the image. Netboot models
-- blt/netboot/netboot.c: Netboot.Console the line that is typed and its commands, Netboot.Packets
-- the packets that arrive and the answers. Namer models the name server of blt/srv/namer/namer.c:
-- its tokens, its tree of names and its requests. Libblt.Hash models hash.c of blt/lib/libblt: a
-- hash table with open addressing, whose walks have as many rounds as there are slots.
--
-- A system call that blocks gives the reply "blocked" (waiting in port_recv), with the state in
-- which the next task runs; what is left of the call is a function of its own
-- (sem_acquire_resumed, port_send_resumed, port_recv_resumed). Interrupts are off in the kernel,
-- so a call is one step between two switches.
--
-- Loops run on fuel: the walks of list_remove and list_detach get the count of the list and one
-- round more, the waking loop of rsrc_release the length of the queue and one round more; the
-- theorems about them include that this is enough. The loop of aspace_destroy gets one round more
-- than there are areas, and strchr any number of rounds, of which one for each byte of the string
-- is enough. The pages of an answer to a read of a file get a
-- round for each byte of it.
--
-- Numbers: ids, addresses and sizes are natural numbers, an uint32 count of list.c wraps around;
-- the int count of a semaphore wraps around too, and the theorems say where it does not. Counts of
-- references and of the tasks in a queue count objects in the kernel's memory and are plain
-- integers. The numbers of the terminal are ints: one that overflows while it is read, or while it
-- leads to a cell, is none, as is a cell outside the screen, and a sum of coordinates wraps
-- around. A page table has 1024 entries, and a write behind them is none. The address that kmalloc
-- returns is an argument, and that it is new is a hypothesis of the theorems that need it.
--
-- Not modelled: the machine's part of a task switch, interrupts, the page directory and the TLB,
-- booting and SMP, debugging and tracing output, drivers, the other servers, the file system
-- drivers and window code, and the allocator of libc, which is a copy of another project's.
pub mod Base
pub mod Console
pub mod Kernel
pub mod Libblt
pub mod Libc
pub mod Namer
pub mod Netboot
pub mod Util
pub mod Vfs
