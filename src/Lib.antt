-- ===== src/Lib.antt =====
-- Models of the core of the pylar web framework and proofs about them: its cache with locks,
-- its job queue with the worker and the supervisor, its schedule of tasks, its router, its sessions,
-- its paginator, its gate, its roles, its API tokens, its signed links and one-time codes, its event
-- bus, its in-process broadcaster, and the service container and the application around it.
--
-- Which file models which part (paths from the root of the repository):
--   Cache/Contract     pylar/cache/store.py: `CacheStore`, a record of operations and laws
--   Cache/Memory       pylar/cache/drivers/memory.py: `MemoryCacheStore`, an instance (Memory/Driver)
--   Cache/Facade       pylar/cache/cache.py: `Cache` and `TaggedCache`, over any `CacheStore`
--   Cache/Lock         pylar/cache/lock.py: `CacheLock`, over the facade
--   Cache/Stampede     `Cache.remember_with_lock`, over the facade and the lock
--   Queue/Record       pylar/queue/record.py and the records of pylar/queue/queue.py
--   Queue/Dispatcher   pylar/queue/dispatcher.py, over the in-process driver
--   Queue/Config       pylar/queue/config.py
--   Queue/Memory       pylar/queue/drivers/memory.py: `MemoryQueue`
--   Queue/Worker       pylar/queue/worker.py: `_process` and what it calls, `process_next`
--   Queue/Middleware   pylar/queue/middleware.py, over the cache facade and its locks
--   Queue/Supervisor   pylar/queue/supervisor.py, which reads the depths of a `MemoryQueue`
--   Session            pylar/session/session.py
--   Session/Middleware pylar/session/middleware.py and stores/memory.py
--   Database/Paginator pylar/database/paginator.py, `paginate` and `simple_paginate` of queryset.py
--   Auth/Gate          pylar/auth/gate.py
--   Auth/Signed        pylar/auth/signed.py: `UrlSigner`
--   Auth/Totp          pylar/auth/totp.py
--   Auth/Roles         pylar/auth/roles.py
--   Auth/Tokens        pylar/auth/tokens.py
--   Scheduling/Task    pylar/scheduling/task.py
--   Scheduling/Builder pylar/scheduling/builder.py
--   Scheduling/Schedule pylar/scheduling/schedule.py, over the cache's locks
--   Scheduling/Kernel  the sleep of pylar/scheduling/kernel.py
--   Routing/Router     pylar/routing/router.py
--   Events/Bus         pylar/events/bus.py
--   Broadcasting/Memory pylar/broadcasting/drivers/memory.py: `MemoryBroadcaster`
--   Foundation/Container pylar/foundation/container.py and binding.py
--   Foundation/Calling `Container.call` and `Container.tagged`
--   Foundation/Application pylar/foundation/application.py, over given providers
--   Dict, Text, Prelude  Python's `dict` and `str`, and the names and lemmas that the modules share
--   Examples           runs on concrete inputs
-- A function here has the name of the method that it models, without a leading underscore; a method
-- that changes its object takes the state last and returns it last. The children of a module hold
-- proofs and are named for what they prove.
--
-- What is assumed. A coroutine runs without interruption between two awaits, and what holds a mutex
-- or a condition is one step; what other coroutines do in a sleep is a function of the state, given
-- with the time at which the sleep ends (`Wake`). An operation reads the clock once, a time is a
-- number of ticks, and the wall clock and the loop's clock are one. A difference of times stops at
-- 0 where the code asks only whether it is positive. Identifiers made by `uuid4` are arguments. A
-- heap of `heapq` is the sorted list of its entries, a database table that of its rows, in the
-- order in which they were saved. Values and payloads are opaque but for what the code looks into.
-- A loop that waits is a recursion on the list of its wakes, and three functions run on fuel:
-- `digits`, on one more than the number, which any more does not change, the container's `make`, on
-- one more than the number of the types that constructors ask for, and the router's `render`, on
-- the length of the path, each round taking a character at least. HMAC, base 32, croniter,
-- zoneinfo, `urlencode`, JSON, SHA-256 and the parsing of `int` are parameters. No coroutine is
-- cancelled. Conditions of a task neither raise nor change anything, and no constructor is refused by
-- `inspect_callable`. The driver of the cache does not suspend between the steps of an operation of
-- the facade or of a lock, as the in-process one never does; only `release_between` lets the others
-- run in between.
--
-- What is not modelled: the drivers over Redis, SQL, SQS and files; the concurrent loop of
-- `Worker.run` with its signals; logging, hooks that only observe, and the database session around a
-- job or a tick; the parallel dispatch of events; `to_dict`; the import of the class of a token's
-- user; all other packages of the framework.
pub mod Prelude
pub mod Dict
pub mod Text
pub mod Cache
pub mod Queue
pub mod Session
pub mod Database
pub mod Auth
pub mod Events
pub mod Foundation
pub mod Scheduling
pub mod Routing
pub mod Broadcasting
pub mod Examples
