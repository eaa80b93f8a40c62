-- ===== src/Lib.antt =====
-- MyCoroutine: stackful coroutines on `ucontext_t`, a scheduler that runs them on a pool of threads,
-- timers, and a manager of epoll events.
--
-- How the parts interact: a `Scheduler` keeps a queue of tasks, each a fiber or a callback, and each
-- of its threads takes tasks and resumes fibers in the loop of `run`. `IOManager` is a `Scheduler`
-- and a `TimerManager`: its idle fiber waits in epoll, and puts the callbacks of expired timers and
-- the tasks of the events that occur into the queue. `FdManager` keeps what the hooked system calls
-- know of a file descriptor. A hooked call that would block arms a timer, registers its event and
-- yields, and the event or the timer puts its fiber back into the queue.
--
--   Common       shared types and lemmas: lists, signed integers, faults, families
--   OrderedSet   `std::set` of pointers with a comparator, used by the timers
--   Callback     the `std::function` values that are stored, named by their data; `OnTimer`
--   Timer        Timer.h, Timer.cpp: `cancel`, `refresh`, `reset` of class Timer, and of TimerManager
--                `addTimer`, `addConditionTimer`, `getNextTimer`, `listExpiredCb`,
--                `detectClockRollover`, `hasTimer`; Timer.Abstract is the map that a manager stands for
--   Fiber        Fiber.h, Fiber.cpp: `GetThis`, the constructors, the destructor, `reset`, `resume`,
--                `yield`, `MainFunc`; Fiber.Identity follows the ids over any calls
--   Scheduler    Scheduler.h, Scheduler.cpp: `start`, `scheduleNoLock`, `stopping`, `stop`, and the
--                critical section of `run`; Scheduler.Owner has the constructor, the destructor, the
--                rest of `stop` and the pointers of a thread to its scheduler, Scheduler.Workers the
--                threads of the pool, with the fibers that they are in, Scheduler.Execute what `run`
--                does with a task, down to the switches between fibers, and Scheduler.Run the whole
--                of `run` and the scheduler's own `idle`, up to where `run` ends
--   FdManager    FdManager.h, FdManager.cpp: FdCtx, and `get` and `del` of the table
--   IoManager    IOManager.h, IOManager.cpp: `addEvent`, `delEvent`, `cancelEvent`, `cancalAll`,
--                `contextResize`, and the handling of an epoll event in `idle`; IoManager.Idle has
--                the rounds of `idle`, where the scheduler, the timers and the contexts meet, with
--                `tickle` and `stopping`; IoManager.Setup has the constructor and IoManager.Teardown
--                the destructor; IoManager.Waiters follows who waits for an event through any
--                sequence of calls, and IoManager.Bits relates the sets of events to the numbers of
--                the source
--   Hook         Hook.h, Hook.cpp: the hooked calls. Hook.Io has `do_io` and the calls made of it, with
--                `accept`; Hook.Calls has `sleep`, `socket`, `connect` and `close`; Hook.Flags has
--                `fcntl`, `ioctl`, `getsockopt` and `setsockopt`; Hook.Originals has `hook_init`
--   Server       server.cpp: the echo server, a client of IOManager: `test_IOmanager`, `test_accept`,
--                `watch_io_read` and the loop for a connection; Server.Main has `main`
--   Tests        the theorems at concrete inputs
--
-- State is passed explicitly. Pointers are addresses into a memory that is a function; where an
-- object is made, its address is an argument, and the theorems assume of it only what the allocator
-- guarantees, and for the fiber of a callback that no running fiber is stored there. The clock, the
-- kernel's answers and the current scheduler and fiber are arguments too. Code that may stop the
-- program by an assertion, or reach undefined behaviour, returns a `Result`, whose `Fault` says
-- which. 64-bit counters wrap around (`% 2 ^ 64`); milliseconds are integers without a bound. Loops
-- are by recursion on the list that they run over, so no fuel is needed; the loops of `do_io` run
-- over the list of what the original function answers. The loop of `run` need not end: it is taken
-- for a number of rounds.
--
-- A fiber's saved context is named by the code that it continues with: the entry function, or the
-- code of the fiber that was running when the context was saved. The threads of the pool are a step
-- relation, in which each step is what a thread does up to its next access to what the threads
-- share, and any interleaving of steps is allowed: the test of a fiber's state in `resume`, the
-- write of RUNNING, the write of READY or TERM and the return to `run` are four steps.
--
-- A task that `triggerEvent` hands to `schedule` of a scheduler is listed with the address of that
-- scheduler, in the order of the calls; whether the `tickle` that `schedule` may make can write to
-- the pipe is an argument, and where it cannot its assertion stops the program.
--
-- A read or write that succeeds leaves `errno` as it was, which Linux does and the C standard does
-- not promise: Server.Echo rests on it.
--
-- Not modelled: the locks (a critical section is one step, and so is a call on an event context),
-- the close of the pipe and the epoll descriptor in the destructor of IOManager, the stack
-- allocator, Singleton.h, which holds one global object, and the demonstrations of test.cpp. A
-- round of `idle` is taken to run without another thread in between. What happens while a hooked
-- call has yielded, what the other threads do in `stop`, and what a fiber does between its resume
-- and the switch back, are arguments.
mod Common
pub mod OrderedSet
pub mod Callback
pub mod Timer
pub mod Fiber
pub mod Scheduler
pub mod FdManager
pub mod IoManager
pub mod Hook
pub mod Server
pub mod Tests
