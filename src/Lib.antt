-- ===== src/Lib.antt =====
-- taskio: a runtime of asynchronous tasks for C, with timers, semaphores and mutexes. The model is of
-- the single-threaded build (without TASKIO_RT_MULTI_THREADED_FEATURE) and without the tracing.
--
-- The parts and how they meet. A worker (src/platform/linux/runtime.c) takes tasks from its poll
-- queue and polls their futures; a future that waits leaves its waker with a timer, a semaphore or
-- another task, and a waker puts its task back into the queue. Timers are in eight wheels of rising
-- resolution; expirations of a timer descriptor tick the first wheel, and each wheel ticks the next
-- when it turns. A semaphore passes permits to futures in a queue and to threads at a condition
-- variable.
--
-- Prelude: names of the libraries, tests, lists and sums over native numbers, 64-bit arithmetic
--   (Words: u64 is the value that an unsigned 64-bit variable holds), and runs that may fault (Runs:
--   accesses out of bounds, by a null or a freed pointer, of a cell that was never written, a failed
--   assert, fuel that ran out).
-- Vec: src/collections/vec.h. A vector has a block of cells; init, move, clear, at, push_last, shrink
--   and remove_if are the macros. Vec.Stores relates a vector to the sequence that it holds;
--   Vec.Contents has the operations on sequences, over which the wheels are written. remove_if has one
--   unit of fuel more than the vector has elements, since each round keeps or removes one.
-- Wheel: src/wheel.c, one timing wheel: find_bucket is _find_bucket, wheel_add and wheel_add_from are
--   taskio_wheel_timer_add and _add_from, timer_fire and timer_abort taskio_timer_fire and _abort.
-- Hierarchy: src/platform/linux/runtime_ext.c and the wheels in src/platform/linux/runtime.c.
--   add_timer, runtime_timer_fire and runtime_timer_abort are the taskio_runtime_ functions,
--   tick_wheel is taskio_wheel_timer_tick with _wheel_loop and _wheel_expiry as the handlers that
--   _wheel_setup stores, run_expirations is the loop over them in worker_run. Nine units of fuel are
--   one for each wheel and one for the index behind the last. The invariant is in Placement; Agenda
--   states the abstract agenda: a clock and the timers pending. Four years of ticks are the horizon,
--   behind which the last wheel would tick a ninth.
-- Semaphore: src/sync/semaphore.c, one definition for what happens under the mutex at a time: wait is
--   the first scope of taskio_semaphore_wait, blocking_wait and blocking_wait_end are
--   taskio_semaphore_blocking_wait before and behind cnd_wait. Nodes are on a heap, with their
--   counters as the code has them. Semaphore.Clients has the callers as events in any order.
-- Mutex: src/sync/mutex.c, a semaphore with one permit. Mutex.Counts follows its permits through the
--   events of Semaphore.Clients, Mutex.Exclusion has its users in any order; the acts of a user are
--   the waits and signals that the functions of the mutex call.
-- EventLoop: src/platform/linux/runtime.c, tasks on a heap, the poll queue as the chain of `next`
--   pointers between poll_head and poll_tail. EventLoop.Handles has the taskio_handle_ functions and
--   the loops of the workers; what a future does at a poll is a parameter. The fuel of run_queue
--   bounds the tasks that one wake of the worker polls, which the program does not bound.
--   EventLoop.Chain and EventLoop.Queue relate the chain to a list. EventLoop.Worker has worker_run with
--   the events that epoll_wait returns, a list for each call of it, taskio_runtime_init and
--   taskio_runtime_block_on; the handlers that a tick calls are called behind the ticks of their event,
--   since no handler of taskio looks at the timers. A poll of the one task that is queued takes two
--   units of fuel, one of them for the end of the queue. EventLoop.Worker.Entry is the main function
--   that taskio_main in include/taskio.h makes: an async function without a value, so that main returns
--   the 0 that main_result starts with. A thread that taskio_runtime_init starts has NULL for its worker.
-- EventLoop.Clients: those that call EventLoop, as events in any order: who has handles, who calls
--   wakers, and the worker, with the calls of a future between the start and the end of its poll. The
--   invariant Inv relates the statuses, the chain and the counters; may_wake and may_answer say when
--   a call of a waker and an answer of a poll are safe, and EventLoop.Handles.Hazards what happens where
--   they are not. There are no blocking tasks. Clients.Turns is a round of run_queue with futures
--   that make such calls, Clients.Loop the loop; its fuel is enough when it exceeds the work that there is
--   (Clients.Work: tasks in the queue and joiners) with that which the calls of a budget add.
-- Join: src/common/join_ext.c with join.c and select.c. join_poll is the scope of taskio_join_ext,
--   cleanup its clean-up, join_wake is _join_wake; what the polls and clean-ups of the futures do to the
--   world is a parameter. The fuel of the loop over the poll list is the number of futures and one,
--   which a list without repetitions does not exceed. Join.Arrays has taskio_join,
--   taskio_join_from_list and taskio_select, which build the array; the global allocator of src/alloc.c
--   is an argument of them. Join.Future the joined future as an async function.
-- Async: include/taskio/async.h with include/taskio/future.h. An async function is the list of its
--   scopes with the code of its clean-up; poll is name##_poll, with async_fn_begin in poll_await, and
--   poll1 is name##_poll1. The bodies of the scopes, what the calls of a waker do, and the future that
--   is awaited (a FutureOps, which async_fn makes of an async function) are parameters. Async.Program
--   is the program that the scopes stand for, without a counter.
-- Semaphore.Futures and Mutex.Locks: taskio_semaphore_wait and taskio_mutex_lock by these macros.
-- Semaphore.Timed: taskio_semaphore_timedwait by them, a select of a wait and a sleep, over a world that
--   has the semaphore, the timers and the two futures. The fuel of the select's loop is 3, one more
--   than its futures.
-- Mutex.TimedLocks: taskio_mutex_timedlock, which awaits it.
-- Sleep: src/common/sleep.c by these macros, over Hierarchy.
--
-- Not modelled: epoll, eventfd and timerfd beyond a count, whether the timer is armed, and the events
-- that are returned; threads but for their order of events; the memory of the allocator, which is taken as
-- fresh; taskio_vec_pop_last, which does not expand to valid code; the macros of async.h that declare
-- structures; the tracing, the tests and the build files.
pub mod Prelude
pub mod Vec
pub mod Wheel
pub mod Hierarchy
pub mod Semaphore
pub mod EventLoop
pub mod Mutex
pub mod Join
pub mod Async
pub mod Sleep
