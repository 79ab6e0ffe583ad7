-- ===== src/Lib.antt =====
-- tinywf: the core of a small asynchronous workflow library in C and C++. Bytes arrive at a
-- socket, the HTTP parser assembles a message from them piece by piece, requests name their target by
-- a URI, the message queue hands work to threads, the scheduler picks the target with the lowest load
-- for a connection, and series of tasks decide what runs next.
--
-- The files, by the code that they are about:
--
-- Prelude holds lists, tests, bytes and C strings over the native numbers.
--
-- Http models src/protocol/http_parser.c and src/protocol/http_parser.h. `Parser` is http_parser_t;
-- `namebuf` is its whole array, `msgbuf` the `msgsize` bytes in use. Http/StartLine, Http/Name and
-- Http/Value are __parse_start_line, __parse_header_name and __parse_header_value; Http/Header is the
-- loop of __parse_message_header; Http/Chunk is __parse_chunk_data, __parse_trailer_part and
-- __parse_chunk with strtol; Http/Headers is the header list, its cursor and what a header says of the
-- connection; Http/Append is http_parser_append_message and the functions behind it. Every function
-- takes the parser and returns it with its return code: `more`, `wait`, `nomem` and `malformed` stand
-- for 1, 0, -1 and -2. The two loops run on fuel, one more than the bytes that are left, and since each
-- round moves on that is enough. Lengths that come from a message wrap at 2^64; the bytes that a parser
-- has received stay below 2^63. The proofs are in Http/Bounds, Http/Frame, Http/ChunkFrame,
-- Http/Valid and Http/Resume.
--
-- StringUtil models src/util/StringUtil.cc, with the classes of ctype.h in the C locale.
--
-- MsgQueue models src/common/msgqueue.c: the memory cell by cell, the two lists with their heads and
-- the tail, and what each thread does while it holds a lock as one step. A thread that waits on a
-- condition takes no step.
--
-- Uri models src/common/URIParser.cc and src/common/URIParser.h: Uri has the scan for the parts,
-- Uri/Parsed the object and the storing of the parts, Uri/Query the queries and paths.
--
-- Series models SeriesWork of src/factory/Workflow.cc and src/factory/Workflow.h: the circular queue of
-- tasks, its expansion, the last task, and what a canceled series deletes. Deleting a task or a series
-- is noted, the callback is counted. The deleting loop runs on fuel, two more than the queue's size at
-- most.
--
-- Sched models src/net/CommScheduler.cc and src/net/CommScheduler.h: Sched itself has the heap of a
-- group, target_cmp, heap_adjust and heapify, over the loads of all targets; Sched/Group has
-- CommSchedTarget and CommSchedGroup with every function but deinit. One group is followed, targets of
-- no group and of this one use it. What a thread does from one wait to the next is a step, since a lock
-- is held throughout. A target takes fewer than 2^32 connections and a group fewer than 2^63, so that
-- the products of target_cmp and the sums do not wrap; the subtractions on size_t are written modulo
-- 2^64. The loops run on fuel, the index or the size of the heap. The proofs are in Sched/Order,
-- Sched/Hole, Sched/Up, Sched/Down and below Sched/Group.
--
-- SubTask models src/task/SubTask.h and src/task/SubTask.cc: the chain of tasks and the count of the
-- branches of a parallel task. Each thread has a stack of calls of dispatch and subtask_done, and any
-- thread may take the next step, so that every interleaving is a run.
--
-- Parallel models ParallelWork of src/factory/Workflow.h and src/factory/Workflow.cc: the buffer whose
-- halves are the first tasks and the series, cell by cell.
--
-- ThreadPool models src/common/thrdpool.c: the threads of a pool with their places in
-- __thrdpool_routine, the chain in which each thread that leaves joins the one before it, and
-- thrdpool_destroy, called from outside or by a task of the pool. The queue is a list.
--
-- Message models src/protocol/HttpMessage.cc: HttpMessage with the blocks of its body. Message/Encode is
-- encode with combine_from, whose vectors are lists of bytes; Message/Append is append of a message, a
-- request and a response, over the parser of Http.
--
-- HttpUtil models src/util/HttpUtil.cc: HttpHeaderMap as an association list, and set_response_status
-- with its table of phrases in HttpUtil/Status. HttpUtil/ChunkCursor is HttpChunkCursor and
-- decode_chunked_body; its loop has two rounds more than the bytes of the body, and each chunk takes one.
--
-- Tests holds runs on small inputs.
--
-- Allocations (malloc, realloc, strdup) are parameters that say whether they succeed; freeing memory is
-- not modelled. Names and values of headers hold no NUL, where strncasecmp would stop. Not modelled
-- are sockets, the primitives of threads, the poller, the red-black tree and the list of the Linux kernel, the
-- route manager, the server and the HTTP tasks.
pub mod Prelude
pub mod Http
pub mod StringUtil
pub mod MsgQueue
pub mod Uri
pub mod Series
pub mod Sched
pub mod SubTask
pub mod Parallel
pub mod ThreadPool
pub mod Message
pub mod HttpUtil
pub mod Tests
