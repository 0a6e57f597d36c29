-- ===== src/Lib.antt =====
-- Verified models of low-level-design-in-go, a collection of small Go systems. Seven of them are
-- modelled here: the game of snakes and ladders, the elevator, the automated parking system, the
-- broker of messages, the key-value store with expiry, the job queue, and the connection
-- pool.
--
-- The parts and how they interact:
--   Snake_Ladders/main.go: one type, SnakeLadders, with the methods of the interface Game. A game is
--     set up (AddPlayer, AddSnake, AddLadder), started (Start) and played (PlayTurn).
--   Elevator_System/elevator.go: a strategy (Directional or FIFO) keeps the waiting requests; Call and
--     SelectFloor of ElevatorSystem check a request, hand it to the strategy and wake the processor,
--     which asks the strategy for the next request and moves the car (moveTo) until none waits.
--     Directional keeps two heaps of Elevator_System/heap.go, run by Go's container/heap.
--   Parking_Management: Park asks a strategy (parking_strategy/) for a floor, books the space and
--     queues a job for the robots; Unpark gives the space back; a strategy may also plan a
--     rearrangement of the parked vehicles (parking_rearrangement/), which commitBlueprint puts into
--     the books; buffer slots (buffer_slots.go) hold vehicles on the way.
--   PubSub/main.go: a broker keeps the subscribers of each topic; Publish sends to the subscribers that
--     it found, Unsubscribe and Shutdown close channels, each after the broker's mutex is given back.
--   KeyValueStore/main.go: a map whose entries may expire, with an index of the items in an expiry heap
--     (heap.go, run by Go's container/heap); each item knows its position in the heap. Set, Get, Exists
--     and Delete keep the three in step under a lock and wake a cleaner, which takes out what is due.
--   Job Queue/main.go: Submit sends a job into a channel, workers take the jobs out and retry them, and a
--     job that fails goes to the dead letter queue, from which RedriveDLQ submits it again; Shutdown
--     closes the channel and waits for the workers.
--   Connection Pool/main.go: Acquire takes an idle connection from a channel or makes one, up to a
--     maximum; Release puts it back into the channel if that has room; Shutdown closes the pool, waits for
--     the connections in use and discards the idle ones.
--   LRU cache/main.go: a map from keys to nodes, which are linked in both directions in the order of their
--     last use; Put and Get move a node to the front, and Put takes the last one out of a full cache.
--
-- Which file models which part:
--   Base and its children: numbers, slices as lists, permutations, finite sets, integers, and Run, the
--     ways in which a Go call ends: it returns, it panics (an index out of range, a nil pointer), or
--     the model's fuel runs out.
--   ContainerHeap: container/heap of Go's standard library over the methods of heap.Interface (up,
--     down, Push, Pop, Remove, Fix); Order, Lawful, Up, Down, Operations and Removal are about every
--     implementation that meets the laws of Lawful.
--   SnakeLadders: the game, one function for each method, which returns the game after it. Invariant,
--     Setup, Rules, Turns, Sixes and Histories are about it. The dice are arguments.
--   Elevator: requests, states and the interface of strategies. Requests, Heaps (heap.go), Directional
--     (AddRequest, NextRequest, rebucket, take, Pending), Fifo, Strategy (the laws of a strategy), Car
--     (moveTo), System (Call, SelectFloor, State, the processor's turn, Shutdown).
--   Parking: types and zones (models/). Strategies (the Allocate methods) with Choices, FirstFits and
--     Zones; Plans (the PlanRearrangement methods) with Placed, Choosers, Loops, Rearrangements and
--     Compaction; Slots (buffer_slots.go); Lot (Park and Unpark) with Books, Leaving,
--     Allocations and Beginnings; Lot.Blueprint (commitBlueprint) with Commits.
--   PubSub: the broker, its calls and the tasks that they leave. Steps, Histories and Runs (every
--     interleaving), Endings (Shutdown with its tasks), Deliveries (Publish with its tasks).
--   KeyValueStore: the methods as critical sections; KeyValueStore.Expiry (heap.go) with pointers as
--     addresses. Lawful, Indexed, Scheduling, Rescheduling and Storing (heap and index in step), Model
--     (the map with deadlines), Due, Sections and Keeping (each section against it), Histories (every
--     interleaving), Reads (Get and Exists), Refusals (after Shutdown), Cleaning (autoCleanup).
--   JobQueue: jobs, channels and the operations on the queue; JobQueue.Steps (the goroutines and their
--     steps). Validity, Conservation and Runs (every interleaving), Retries (RetryJob), Draining (the
--     workers after Shutdown).
--   ConnectionPool: the critical sections, with pointers as addresses; ConnectionPool.Steps (the
--     goroutines and their steps). Sums, Validity, Sections, Releasing and Runs (every interleaving),
--     Closing (the loop of Shutdown).
--   LruCache: the methods, with pointers as addresses. Chains (linked nodes), Unlinking, Ranks and
--     Reranking (re_rank), Evicting and Adding (Put), Recency (the list in order of use), Finding,
--     Following and Histories (the calls against it).
--   Tests in each part run the definitions on concrete inputs.
--
-- Bounds and fuel: the loops of container/heap, of rebucket and of the processor are recursions on fuel.
-- The heap loops get as much fuel as the heap has entries, rebucket one more than its heap has requests,
-- the processor's turn any number above the waiting requests, the cleaner's loop any number above the
-- items of its heap, and the loop of Show the capacity of the cache: a round of a heap loop moves down a
-- level, a round of rebucket moves a request that stays on its new side, a round of the processor
-- takes a request out, a round of the cleaner an item, and a round of Show goes to the next node. A call
-- that runs out of fuel does not return. The other loops are structural.
-- Numbers are unbounded: machine overflow of int is not modelled, and the hours of a stay are rounded up
-- exactly, where the source goes through float64.
--
-- Concurrency: a method that holds its mutex throughout is one step. moveTo lists the states that it
-- publishes between its waits, and each wait may end by the shutdown. A turn of the processor is
-- modelled without calls that arrive while it runs. The calls of the broker and their tasks interleave
-- in every order; receiving from a subscriber's channel is left out. The critical sections of the
-- key-value store interleave in every order, each with the clock's reading as an argument; the cleaner's
-- loop is also run on its own, with the clock standing still. The goroutines of the job queue take
-- steps in any order: a Submit that has the read lock and waits for room keeps Shutdown and Start out,
-- a job on a channel without a buffer goes from sender to worker, and a Shutdown waits for the workers
-- in a step of its own, of which the return is another one. A call of Acquire may lose its turn
-- between a receive and the section that follows it.
--
-- Not modelled: clocks, random identifiers, contexts and printing are arguments or left out; the
-- robots of Parking_Management/workers.go, SwitchStrategy of Parking_Management/parking.go, and
-- Parking_Management/parking_rearrangement/graph.go; and the systems of
-- Splitwise and Token Bucket Rate Limiter.
pub mod Base
pub mod ConnectionPool
pub mod ContainerHeap
pub mod Elevator
pub mod JobQueue
pub mod KeyValueStore
pub mod LruCache
pub mod Parking
pub mod PubSub
pub mod SnakeLadders
