-- ===== src/Lib.antt =====
-- Verification of the virtual memory of this Xinu kernel, and of the process side that it runs on.
--
-- The kernel has two halves. The memory half hands out physical frames from four regions behind the
-- kernel heap (page tables, the fixed frame space FFS, swap, and virtual stacks), builds a directory for
-- each process, gives out virtual pages (vmalloc), takes them back (vfree, kill), and on a page fault
-- finds a frame, moving another page to swap where FFS is full. The process half is the scheduler, the
-- queues it stands on, semaphores, sleep, messages, ports, buffer pools, and the creation and end of
-- processes. The shell reads command lines for it. The halves meet in
-- the process table: a service of the memory half runs as a process of higher priority, and resched and
-- kill destroy the directory of a process that has ended.
--
-- Files and what they model (paths from the root of the repository):
--   Prelude       names and tests that all modules share; Prelude/Int: signed integers
--   Memory        xinu/include/memory.h, paging.h: roundmb, truncmb, ceil_div, uint32 arithmetic
--   FreeList      xinu/system/paging.c: __init, _getfreemem, _freemem. FreeList/Chain is the invariant,
--                 Get and Free the proofs about the two operations, Canonical, Laws and Order what
--                 follows
--   Heap          xinu/system/getmem.c, freemem.c, getstk.c, meminit.c, and freestk of memory.h
--   Vm            xinu/include/paging.h and the globals of paging.c as one record, and the frame
--                 allocators; Vm/Copy: copy_page of pagefault_handler.c
--   PageTable     xinu/system/paging.c: directories and tables, init_paging
--   KernelService xinu/system/kernel_services.c, vmalloc.c, vfree.c, freevmem of paging.c.
--                 KernelService/Released says what freeing a page changes; GivePage, Release,
--                 FreeResident, FreeAbsent and FreePage are the cases of a page, FreePages the loop and
--                 FreeService the whole service. Unserved is vmalloc without its service process
--   PageFault     xinu/system/pagefault_handler.c: one function for each part of the handler.
--                 PageFault/Coherent is the invariant of the mappings, Swapframe, Choose, Move,
--                 Outgoing and Evict the steps of an eviction, Served and Fault the whole; TakePage,
--                 Refill, Arrive and Vacant are a fault while a frame of FFS is free; Ready, Leave and
--                 Stays how an eviction keeps the invariant, and Always any fault; SwappedOut and
--                 RoundTrip follow a page to swap and back
--   Queue         xinu/include/queue.h, xinu/system/queue.c, getitem.c, insert.c, insertd.c, newqueue.c.
--                 Queue/Links says which list the links of a queue stand for, Queue/Frame that a step on
--                 one queue spares the others
--   Sys           xinu/include/process.h, xinu/system/ready.c, resched.c: the whole kernel state
--   Semaphore     xinu/system/wait.c, signal.c, signaln.c, semcreate.c, semdelete.c, semreset.c,
--                 semcount.c. Semaphore/Blocking is a semaphore on which processes wait, Wakes and
--                 Blocks how they leave its queue and come on it
--   Clock         xinu/system/sleep.c, unsleep.c, wakeup.c, yield.c, clkhandler.c
--   Message       xinu/system/send.c, receive.c, recvclr.c, recvtime.c
--   Pool          xinu/system/bufinit.c, mkbufpool.c, getbuf.c, freebuf.c. Pool/Buffers is the list of
--                 free buffers, Pool/Links and Pool/Create how it starts
--   Port          xinu/system/ptinit.c, ptcreate.c, ptsend.c, ptrecv.c, ptcount.c, ptclear.c, ptdelete.c,
--                 ptreset.c. Port/Nodes are lists of message nodes, Port/Fifo a port as a queue of
--                 messages, Port/Init how the ports start
--   Names         xinu/device/nam/mount.c, nammap.c: the namespace. Names/Text are texts in buffers,
--                 Names/Map the table as a list of mappings, Names/Mount how it grows
--   Dotted        xinu/net/dot2ip.c; Dotted/Value says which address it reads
--   Process       xinu/system/create.c, vcreate.c, kill.c, suspend.c, resume.c, chprio.c, getprio.c
--   Lexan         xinu/shell/lexan.c and the token constants of xinu/include/shell.h. Lexan/Text is a
--                 line as written tokens, Lexan/Reads what lexan reads from it; Copies and Fits are its bounds
--   Shell         xinu/shell/shell.c, from the tokens of a line to the command. Shell/Words are
--                 lines of words, redirections and "&", Redirect and Parse how they are read, Find the
--                 search for the command
--   Tests         the theorems at concrete inputs
--
-- How the code is read. A function is a step on a state: Vm for paging, Sys for the kernel, whose field
-- vm is the paging state. It returns a value and the new state, or halts (a failed ASSERT), or makes an
-- access that the code does not guard, such as one through NULL. Interrupts are off in all of it, so a
-- function is one step, up to its call of ctxsw: a receiver that blocks is two steps, before and after,
-- ptsend, ptrecv and getbuf are split at the return of wait, and kill where its message may switch to the
-- parent. The words of memory that getmem hands out, in which buffers and message nodes lie, are the
-- field `words` of Sys. A service that vmalloc, getvstk or vfree
-- starts has a higher priority than its caller and runs at once; whether create had a slot for it is the
-- parameter `spawned`. A frame holds entries where it is a directory or a table, and words elsewhere.
-- What the processor reports (CR2, CR3, the error code), the value of rand, and the function that
-- disposes of the messages of a port are parameters. SYSERR, -1,
-- EMPTY and NULL are `none` or `false`; in memory addresses SYSERR is the number 2 ^ 32 - 1. Process,
-- semaphore and queue ids are read as unsigned. Keys, counts and priorities are unbounded integers.
--
-- Bounds and fuel. The walks of insert and insertd get one step more than the queue table has entries; a
-- queue holds at most n_proc processes, so a walk that meets the end of a well-formed queue has enough.
-- The loops over a queue in semreset and wakeup get n_proc + 1 rounds, and that of semdelete one round
-- more than the count is below 0. The walk over the messages of a port that is reset or deleted takes the
-- number of rounds as an argument. Prefixes in the namespace end within their 64 bytes, so as many rounds
-- compare one. The main loop of lexan gets one round more than SHELL_MAXTOK: each round but the last
-- counts a token, and the round that finds so many of them returns.
--
-- Not modelled: the words that create and vcreate write on a new stack, the headers that free blocks
-- hold in the frames themselves, the accessed bit, the TLB and CR3, closing descriptors, kprintf,
-- memory marks, naminit and namopen, devices, the rest of the network, the commands of the shell, its
-- input and output and addargs, and the C library.
pub mod Prelude
pub mod Memory
pub mod FreeList
pub mod Heap
pub mod Vm
pub mod PageTable
pub mod KernelService
pub mod PageFault
pub mod Queue
pub mod Sys
pub mod Semaphore
pub mod Clock
pub mod Message
pub mod Pool
pub mod Port
pub mod Names
pub mod Dotted
pub mod Process
pub mod Lexan
pub mod Shell
pub mod Tests
