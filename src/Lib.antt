-- ===== src/Lib.antt =====
-- JODA, a query processor for JSON documents in C++. A query is parsed, planned into a queue of tasks
-- and run as a pipeline over containers of documents; each document is tested by the query's
-- predicate, and documents can be grouped by their similarity when they are imported. This library
-- models the part of libs/joda/core/modules that decides what is done, and leaves aside what moves
-- data between threads, files and the network.
--
-- The parts, their files, and the code that they model:
--   Base: names shared by all, lists measured by native numbers, bytes of strings, dictionaries (Dict)
--     for hash maps.
--   Json: documents and the events of RapidJSON's SAX interface. The traversal of a document is
--     RapidJSON's and is the parameter `Sax`; its laws are the documented order of the calls, and
--     Json/Order has a traversal that meets them.
--   Similarity: modules/similarity. PathsReader is RJPathsReader (src/RJPathsReader.cpp), one function
--     for each overload; PathsDom is `getPaths` (measures/PathJaccard.h), with its `int`; AttributeReader is
--     RJAttributeReader and `getAttributes`; Jaccard is the two `measure` functions, whose double is
--     kept as a quotient. Import reads a document with the handler, and two documents in memory are
--     compared by the traversal, so the two must agree.
--   Document: modules/storage/document/src/BloomAttributeHandler.cpp, in the same form.
--     DocumentCostHandler.h is Document/Cost: the two costs of a document that storage keeps, one by the
--     calls of the SAX interface and one by the document in memory. Cost/Held and Cost/Spare compare
--     them, and Cost/Views is about the paths of views.
--   Values: modules/query/values. Provider has the classes of the predicates with their types and the
--     checks of their constructors; Eval their values on a document and `Query::check`; Optimize the
--     three `optimize` functions and their call in modules/queryparsing/src/QueryParser.cpp. RapidJSON's
--     numbers and deep equality and the machine's doubles are the parameter `Machine`, and reading a
--     document by a JSON pointer the parameter `get`. Cast, Strings, Substring, MemberCount, Kinds and Math
--     are the functions of CastProvider.h, UnaryStringProvider.h and BinaryStringProvider.h,
--     SubStringProvider.h, MemberCountProvider.h, TypeProvider.cpp, IsXBoolProvider.cpp and TruthyFalsyProvider.h with a few more, and
--     UnaryNumberProvider.h and BinaryNumberProvider.h, on the values of their parameters; the functions of
--     doubles are the parameters `Conversions` and `DoubleMath`, and signed overflow is `none`.
--   Aggregate: modules/query/aggregate and modules/queryexecution/src/pipeline/tasks/agg. `Aggregator` is
--     the interface IAggregator, and IsMergeable what its merge must do; Count, Collect, Number, Distinct
--     and Group are the subclasses, each with what it holds after documents; Exec is AggPipeline.cpp, one
--     for each thread, and AggMerger.cpp, which merges what the threads send; Window is WindowAgg.cpp.
--     AttributeStat is the handler of AttributeStatAggregator.h, with the nodes above the current one kept
--     as a list, and its children are about a whole document (Accepted) and have the merge and the output
--     (Merged). An aggregator reads documents by the providers of Values.
--   Join: modules/join. Manager is MemoryJoinManager with MemoryJoinDoc: Invariant is about the ids of
--     values, Equal says without keys what a value of a group is, Groups, Steps and All are about what each group
--     holds, Load is loadOneJoinCont with its caller.
--   Index: modules/indexing. Histogram is `split` of AdaptiveHistogram.cpp, Split about its loop and Parts
--     about all of it.
--   Planner: modules/queryexecution/src/PipelineQueryPlan.cpp. TaskId has the names of tasks, Tables the
--     tables of pipeline/tasks/Compatability.h, Plan the queue with `addTask`, `resolveRequirement` and
--     `resolveRequirements`, and Create the plan of a query with its subqueries. Grows, Resolve, Loop,
--     Good, Remember, Imports and Complete are about what a plan keeps, Agreement about the tables.
--   Pipeline: modules/queryexecution/src/pipeline. Rule is `findOptimizationTarget` with the rules of
--     optimization/, Build is `addTask` and `addTaskAt` of Pipeline.cpp. Queues has the types of the
--     queues between tasks, as a wrong one fails a cast. Target and Triple are about what the rules find, Outputs and Wiring about what is connected. The planner hands its queue to
--     `addTask`, and the rules search the tasks that it has added.
--   Tests: the theorems on concrete inputs.
--
-- State is passed explicitly. A handler's vector that is used as a stack is a list with its back
-- first. A call that the source makes for its effect on a plan returns the plan.
--
-- Bounds: `addTask` and `resolveRequirement` call each other, so `add_task` takes fuel; a task brings in
-- a chain of at most three others (its rank, in Planner/Resolve), so `add_fuel` is four. The loop
-- `resolveRequirements` takes fuel for one round for each outstanding requirement and one for the last
-- test, as each round removes one where no similarity measure is set. The sums of sizes wrap at 64
-- bits; the counter of an array in the SAX handlers, a `long`, is an unbounded integer. The `int`s of `getPaths`
-- and of SUBSTR are 32 bits, and the theorems bound the arrays and strings. A division by zero is `none`:
-- the numbers of threads are at least one where that matters. A name is a list of bytes, and a C string ends at its first zero.
--
-- The counters of COUNT and AVG, the ids of joins and the costs wrap at 64 bits. `load_all` calls
-- loadOneJoinCont with fuel for one call more than the manager has documents; each call takes at least
-- one of them. `split` has fuel for one round more than the string has bytes: a separator that is not
-- empty moves it on by at least one byte in each round.
--
-- Not modelled: how a rule's range is replaced, the pipeline's threads and queues, whose orders of
-- arrival are the orders of the given lists, storage and containers, the adaptive index but for the
-- splitting of buckets, the caches, joins in files and of relations, projections, the HISTOGRAM and
-- Python aggregators, the functions of hashes, of regular expressions, of iterators and of the origin
-- of documents, the grammar, and all input and output. The lock-free queues of modules/concurrency and
-- the Bloom filter of modules/misc are copies of other projects' libraries. The tables of tasks are
-- those of a build with Python modules.
pub mod Base
pub mod Json
pub mod Similarity
pub mod Document
pub mod Values
pub mod Aggregate
pub mod Join
pub mod Index
pub mod Planner
pub mod Pipeline
mod Tests
