-- ===== src/Lib.antt =====
-- The schedulers of batsched4, the decision process that the simulator batsim4 asks which job to start
-- on which machines. A simulation is a sequence of calls of a scheduler's handler make_decisions
-- (batsched4/src/isalgorithm.hpp), which is told the date, the jobs that ended and the jobs that were
-- released since the last call, and answers with messages (batsched4/src/decision.cpp) that start or
-- reject jobs.
--
-- The files:
--   * Base: natural numbers, lists, Boolean tests, association lists, and the results of code that can
--     fail: a failed assertion (PPK_ASSERT_ERROR), a null pointer or a missing key is a Fault.
--   * Intervals: the class IntervalSet of the intervalset library. It is not in the repository, so its
--     operations are a parameter (Intervals) with laws (IntervalLaws); Masks is a concrete instance.
--   * Workload: batsched4/src/json_workload.cpp and decision.cpp, the jobs and the messages.
--   * Queue: batsched4/src/queue.cpp, the queue of waiting jobs and the orders that sort it.
--   * Locality: batsched4/src/locality.cpp, how machines are selected for a job. The record Selector is
--     the promise of ResourceSelector::fit, which BasicResourceSelector (basic_fit) and
--     LimitedRangeResourceSelector (Locality/Limited) fill.
--   * Schedule: batsched4/src/schedule.cpp, the plan of conservative and EASY backfilling: time slices
--     (Schedule/Slices) with the jobs planned in each (Schedule/JobMap), the scan that puts a job into
--     them (Schedule/Placing), the loop that takes one out (Schedule/Removing), machines in repair
--     (Schedule/Repair), the passing of time (Schedule/Updating) and what is read (Schedule/Queries).
--     Schedule/View says which machines are free, and which a job holds, at a date, and states the
--     invariant.
--   * Fcfs: batsched4/src/algo/fcfs.cpp, which uses any Selector; Fcfs/Fast is fcfs_fast.cpp beside it.
--   * Sequencer: batsched4/src/algo/sequencer.cpp, which runs one job at a time.
--   * Filler: batsched4/src/algo/filler.cpp, which starts every job that fits, with any Selector.
--   * EasyFast: batsched4/src/algo/easy_bf_fast.cpp, EASY backfilling over a sorted list of expected
--     completions (EasyFast/Horizon).
--   * EasyBf3: batsched4/src/algo/easy_bf3.cpp, EASY backfilling over a schedule that is heap-sorted
--     (EasyBf3/Heap) by expected end.
--   * EasyBf: batsched4/src/algo/easy_bf.cpp, EASY backfilling over the class Schedule, which holds the
--     jobs that run and the priority job. Its children say what an insertion or a removal does to the
--     plan (EasyBf/Planning, EasyBf/Keeping) and follow the handler: EasyBf/Ending, EasyBf/Sorting,
--     EasyBf/Backfill, EasyBf/Trying, EasyBf/Traversing and, for the whole, EasyBf/Decisions and, for
--     calls in a row, EasyBf/Runs.
-- Two parts of the simulator are modelled beside them:
--   * Pstate: batsim4/src/pstate.cpp, which requests to switch power states are not answered yet.
--   * Workflow: batsim4/src/workflow.cpp, the tasks of a workflow and their edges.
--
-- How state and operations correspond: the members of a scheduler class are the fields of a record
-- State, under their names without the underscore. A handler is a function from the state to the new
-- state, in Result where it can fail; a loop of the handler is a function by recursion on the list
-- that it walks. What the code puts into its SchedulingDecision is the field decisions, the latest
-- first. An iterator into the std::list of completions is the name of its node, and an std::map or
-- std::unordered_map is an association list, the latest entry first; the tasks of a workflow are a
-- list in the order of their identifiers, as the std::map has them.
--
-- Choices: dates and walltimes (double and Rational in the source) are natural numbers of one fixed
-- unit, and job identifiers, strings that the code only compares, are numbered in their order. Machine
-- counts are natural numbers; a subtraction below 0 does not occur where the invariants hold. A pointer
-- to a job is compared by the identifier of the job. std::list::sort is a stable insertion sort by the
-- same comparison. max_heapify runs on fuel: the index grows with every call, so a fuel of the size of
-- the heap is enough, and the sort is proved with that fuel.
--
-- The theorems on EasyBf have BasicResourceSelector and calls at dates strictly before the end of the
-- first slice, once the ended jobs are removed. A call just at that end, at which the code gives the
-- slice the length 0 for a moment, is not covered. The theorems on machines that go into repair are
-- about machines that no job is allocated: otherwise the count of available machines can fall below 0 in the code, and
-- stops at 0 in the model.
--
-- Not modelled: the orders OriginalFCFSOrder and DescendingBoundedSlowdownOrder, logging, timing and
-- trace files, the JSON protocol and the socket, option parsing, the reservations of the class Schedule, conservative backfilling, the energy-aware schedulers, the other
-- variants of the schedulers above, and the rest of batsim4, whose simulation is driven by the SimGrid
-- library.
pub mod Base
pub mod Intervals
pub mod Workload
pub mod Queue
pub mod Locality
pub mod Schedule
pub mod Fcfs
pub mod Sequencer
pub mod Filler
pub mod EasyFast
pub mod EasyBf3
pub mod EasyBf
pub mod Pstate
pub mod Workflow
