-- ===== src/Lib.antt =====
-- Verification library for the code of MCUProxy's libckits, libconf, libnet and libaux.
--
-- The program is a conference proxy. libckits holds what all of it stands on: a hash table
-- from names to pointers, a list of timers, allocators, a stream over a buffer. libconf mixes
-- the audio of a conference, libnet wakes its threads and has its packets, and libaux its
-- names. The library models fourteen parts, each a file with the operations and a directory
-- with their laws, and its tests beside them:
--
--   HashTable   libckits/hashTable.c: setHashValue is set_hash_value, and so on. The buckets are a
--               list of chains, a NULL argument is `none`, what goes through `retval` is a field of
--               the result. Whether malloc succeeds is an argument. Specification: a finite map.
--   TimeList    libckits/timeList.c: the queue holds each event's time after the one before it. The
--               clock is an argument; the seconds that a deleted event leaves behind wrap at 32 bits.
--               Specification: an agenda, the time when each event is due.
--   IoStream    libckits/ioStream.c: a cursor over a buffer; a store outside the buffer is a fault,
--               `none`. What vsnprintf makes of a format is an argument.
--   MixFunc     libconf/mixfunc.c: the sums of the conference, on integers that wrap.
--   AudioConfMix  libconf/AudioConfMix.cpp: the members of a conference, and a round of its thread,
--               which pulls a voice from each member, mixes with MixFunc, and pushes the mix to each.
--   VideoConfMix  libconf/VideoConfMix.cpp: the members of a video conference, on the list of
--               AudioConfMix, with their limits.
--   TokenPool   libaux/TokenPool.cpp: one copy of each name in a buffer, a pointer being an offset.
--   MetaBuffer  libaux/MetaBuffer.cpp: the typed items of a buffer, under names of the pool.
--   RtpTransport  libnet/RTPTransport.cpp: the packets of RTP, which Sent sends and Header reads, and
--               those of RTCP; a packet is its bytes, and to read outside it is a fault.
--   SlotAlloc   libckits/myAlloc.c, the slot allocator: the free list holds addresses.
--   PoolAlloc   libckits/myAlloc.c, the pool allocator: the free list holds the addresses of the
--               headers, and the `size` fields are a memory. Both allocators have a client, in
--               Client, that returns only what it holds and stands for their users.
--   ShmAlloc    libckits/shmAlloc.c: the allocator in shared memory. A block is its offset, and the
--               low bits of its size count references. The links of free blocks are the list, as in
--               PoolAlloc; where they would be written beyond a block, the model stops.
--   TimedEventQ libnet/absTimerList.cpp: the queue of events at absolute times that libnet's threads
--               share. The clock, `new` and `delete`, and what callbacks do to it are arguments.
--   EpCore      libckits/epCore.c: epCallLater takes an event node from a slot allocator and adds it to
--               the timer list, epCancelCall takes it back; Loop has epAction, which handles alarms and
--               dispatches what epoll reports. epoll and the callbacks are arguments. An address may hold
--               no transport; Stops says where the loop then stops.
--   Prelude     the names, numbers, lists and words that the parts share.
--
-- EpCore stands on TimeList and SlotAlloc, MetaBuffer on TokenPool, TokenPool on the hash of
-- HashTable, AudioConfMix on MixFunc, VideoConfMix on the list of AudioConfMix; ShmAlloc and
-- TimedEventQ share helpers with PoolAlloc and TimeList. An `int`, a pointer and `size_t`
-- have 32 bits and `char` is signed, as the casts in the code require; what wraps is written
-- out. The loops follow lists or a count, so that they end without fuel; djb2_loop and
-- testbit_loop count down from a bound that the source gives. The rounds in which pool_free
-- combines blocks have the length of the free list as fuel: each round shortens it, and none
-- finds a neighbour in an empty list. time_plus has 2148 rounds for less than 2148 seconds.
--
-- Not modelled: epGetTransport of libckits/epCore.c, whose list is never filled; pool_strdup, shm_strdup and
-- the dumps of the allocators; copies of other libraries (system, libckits/cJSON.c,
-- libckits/include/list.h, libaux/gentone.c); the other C++ parts, which are I/O, threads and
-- glue. `main` in libckits/timeList.c is a demonstration.
pub mod Prelude
pub mod HashTable
pub mod TimeList
pub mod IoStream
pub mod MixFunc
pub mod SlotAlloc
pub mod PoolAlloc
pub mod EpCore
pub mod ShmAlloc
pub mod TimedEventQ
pub mod AudioConfMix
pub mod VideoConfMix
pub mod TokenPool
pub mod MetaBuffer
pub mod RtpTransport
