-- ===== src/Lib.antt =====
-- ZInfoTech: the containers, the memory, the tasks and the sessions of a C library for servers.
--
-- The library keeps values in chunk queues (zit/container/queue.h) and linked lists
-- (zit/container/list.h), looks them up in red-black trees (zit/container/rbtree.h and
-- src/rbtree.c), recycles fixed blocks through an allocator that stands on two queues
-- (zit/memory/alloc.h, src/memory.c), keeps buffers of other sizes in pools that stand on the tree
-- (zit/memory/mem_pool.h), and runs a task server above them (src/task.c). An epoll server (src/epoll.c) brings its sessions to
-- workers and sends what they write; files are read, written and walked by src/filesys.c. Times are written,
-- read and subtracted by src/time.c.
--
-- Base: the error numbers of zit/base/error.h, 32-bit counters that wrap, Boolean tests, a type of
--   integers for the signed positions of the queue, and lists measured by native numbers.
--
-- Queue: zit/container/queue.h. The fields of zqueue_t are those of the record Queue; the chunks
--   from begin_chunk along next are a list. push, push_front, pop, pop_back, front, back, create and
--   size_of are zqueue_push and so on; an access outside a chunk or through NULL is none. What the
--   memory allocator returns is an argument: a fresh address, or none for NULL.
--   Queue/Slots, Items, Steps: the values that a queue holds, in order, and the parts of the calls.
--   Queue/Refine, Front, Back: each call against the list of values. Queue/Deque: sequences of calls.
--   Queue/Created: the queue that zqueue_create makes.
--   zqueue_push_front has no return behind its copy: what it answers there is an argument.
--   Queue/Locked: the variants with a spin lock (zqueue_lock_push and so on), on a queue with its
--   lock. A locked pop answers a pointer, with its chunk as it is at the unlock. Queue/Threads: these against the calls without a lock.
--   Queue/Foreach: zqueue_foreach.
--
-- Rbtree: zit/container/rbtree.h and src/rbtree.c. A pointer to a node is a subtree and the way up
--   from it, which has in it what the code reads through n->parent, sibling and uncle. rotate_left,
--   insert_case1 to insert_case5, insert, find and verify are the functions of those names;
--   a failed assertion or an access through NULL is none. The comparison is a parameter, by the sign
--   of what it returns; an entry has the nodes of equal keys behind next.
--   Rbtree/Delete: delete_case1 to delete_case6, replace_node, erase and pop_front.
--   Rbtree/Erasex: erasex. Rbtree/Findx: findx and operate.
--   Rbtree/Shape: red-black trees, ways, contents. Rbtree/Insert: the cases of an insertion.
--   Rbtree/Nephews, Deletion, Unlink: the cases of a deletion, and the removal of a node.
--   Rbtree/Sorted, Keyed, Hangs, Erase, Pop, Find: each call against a list in order.
--   Rbtree/Ordered, Map: sequences of calls. Rbtree/Verify: the check of the properties.
--
-- Task: src/task.c and zit/framework/task.h. Threads that post tasks and threads that work missions
--   off are interleaved move by move; a move is one access to shared memory or a region under one
--   lock. A pop of the ready queue and the read of
--   the place that it gives are two moves. The field strayed is true once a place was read after it
--   had been written again or freed, or an allocation failed: the lists do not stand for the queues from then
--   on. Task/Invariant, Kept, Safety: what holds in every state they reach before that.
--   Task/Post: ztsk_svr_post, ztsk_svr_subscribe and ztsk_svr_unsubscribe on the tree of subscribers,
--   for a task that is cloned by reference (zobj_ref_clone and zobj_ref_release of src/memory.c).
--   Keys are compared as int32_t; what their difference is where it does not fit is an argument.
--   Task/Delivery, Subscribe: who gets a task, and which subscription is removed.
--
-- Dlist: zit/container/list.h. A node is its address and a store has the two links of each; push,
--   push_front, pop, pop_back, front, back, size_of and foreach are zlist_push and so on, and an
--   access through NULL is none. Dlist/Links: which nodes are linked, and in which order.
--   Dlist/Refine, Pop: each call against the list of nodes. Dlist/Foreach: the loop over the nodes.
--   Dlist/Locked: the variants with a spin lock, and sequences of their calls.
--
-- Alloc: zit/memory/alloc.h and zalloc_create of src/memory.c. A block is its chunk's address and an
--   offset; the recycled blocks are in a chunk queue of Queue with a lock for each end.
--   Alloc/Valid: an allocator in order, and who has which block. Alloc/Carve, Pop, Push: zalloc_pop
--   and zalloc_push. Alloc/Created: zalloc_create. Alloc/Uses: whatever users do with their blocks; the field starved
--   is true once a block was given back without memory for the recycle queue.
--
-- Objects: the object pool of src/memory.c on fixed blocks, over Alloc. An object has the fields of
--   zobj_t that the pool uses, and a body; the functions behind clone and release are a mode. pool_pop
--   is zobj_pool_pop, and clone and release call zobj_ref_clone, zobj_mem_clone and so on.
--   Objects/Content: what the allocator does to what lies in blocks. Objects/Lives, Calls: one call of
--   a user who has references. Objects/Runs: sequences of calls, as uses of the allocator.
--
-- Mempool: power_of2 of zit/memory/mem_pool.h. Mempool/Bits: the highest bit of a number, and the
--   lowest cleared. Mempool/Power: which buffer a size gets.
--
-- Time: src/time.c and zit/base/time.h. Texts are lists of codes; sprintf, strstr and atoi are
--   modelled for what the code asks of them, mktime and localtime are arguments.
--   Time/Decimal: numbers printed and read. Time/Text: times. Time/Interval: ztock.
--
-- Net: src/socket.c and src/epoll.c. What the kernel answers to send is a list of answers; a buffer
--   is the memory from its address on, and the bytes that the kernel took are recorded in order.
--   zsend, and sendn for zemq_sendn. Net/Send: zsend against the bytes of the buffer.
--   Net/Buffered: zemq_send, get_buf and push_buf on a session; Whole, Copies, Stream, Calls: calls
--   while the kernel takes all or nothing; Loss: when it takes a part.
--   Net/Packet: zrecv_packet, with find_mark for its searches; Net/Packet/Parts: whole packets and
--   parts of them.
--   Net/Sessions: the epoll thread in zepoll_in and the workers in zproc_worker, move by move as in
--   Task. Net/Sessions/Kept, Safety: what holds in every state they reach, while no session is
--   closed, before the field strayed is true: once a place was read after it had been written
--   again or freed, a push failed, or zepoll_out was called.
--
-- Files: src/filesys.c. A directory tree is what zfstat, opendir and readdir find at each path; the
--   callback is a function of path, flag and state. zftw and walk keep the path as the buffer fullpath
--   has it; a path that does not fit is none. Files/Visits: the list of what a walk is to visit.
--   Files/Paths: the path in its buffer. Files/Walk: zftw against that list. Files/Listing: zftw_nr,
--   with list_entries for its loop. Files/Io: zfreadx and zfwrite, with an answer for each call of read
--   or write; Files/Io/Complete: what they transfer.
--
-- Trace: zdump_bin and zdump_mix of src/trace.c; dump is the loop of both. Trace/Bounds: how much of
--   the buffer they touch.
--
-- Fuel: delete_case1 has one call for each ancestor, and unlink gives it one more than the way is
--   long. The loop over a linked list has more fuel than the list has nodes, those over a queue
--   more than a chunk has slots, and that of power_of2 more than the doubled size; find_mark has a
--   round for each byte. The loops that call the kernel go on as long as there are answers. All other
--   recursion is on a tree or on a list. Bounds: a queue and a linked list hold fewer than 2^31
--   values, the product of chunk size and value size is the chunk's length, as in create, and the
--   chunks of an allocator are below 2^31 bytes. Fewer than 2^32 reports come to a session while a
--   worker is at it.
--
-- Not modelled: zqueue_back_pos, zqueue_swap and zqueue_destroy; zrbtree_foreach,
--   zrbtree_create and zrbtree_destroy; zlist_create and zlist_destroy; zalloc_destroy; the pool of
--   buffers, and objects that lie in it; creating and destroying of task servers and missions, and
--   tasks cloned by copy; sleeping, and the Windows branches of src/time.c. Left out as input,
--   output or calls of the operating system: traces, printing, single calls of sockets, epoll
--   and files, threads, processes. src/modp_b64 is a copy of another project's library.
pub mod Alloc
pub mod Base
pub mod Dlist
pub mod Files
pub mod Mempool
pub mod Net
pub mod Objects
pub mod Queue
pub mod Rbtree
pub mod Task
pub mod Time
pub mod Trace
