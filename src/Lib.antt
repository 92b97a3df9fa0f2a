-- ===== src/Lib.antt =====
-- A model of Orchestra, which runs graphs of agents on coding tasks (src/orchestra). A graph is
-- compiled once (ir/compiler.py); a run then repeats waves (runtime/native_async.py): the scheduler
-- gives the ready nodes, the executors run them, the committer stores their artifacts and merges
-- the results in the order of the node names, and the state is saved as a checkpoint.
--
-- Files, with the code that each models:
--   Prelude: Python's dict, set, sorted and int, results that may be exceptions, shared lemmas.
--   Exceptions: the exception classes, and the clause of src/orchestra/executors/registry.py.
--   Json: the values of a payload with the comparisons that conditions use.
--   Ir: src/orchestra/ir/{artifacts,contracts,edges,graph,nodes}.py and
--     src/orchestra/schemas/artifacts.py. EdgeCondition.evaluate is `evaluate`, which uses
--     `split_dots`, `resolve` and `test`.
--   Compiler: src/orchestra/ir/compiler.py. `compile` is GraphCompiler.compile: Checks has the tests
--     of nodes and edges, Wiring the tables of edges, Entries the entry nodes, Waves the wave loop,
--     Reach the closure. Compile has the parts in the order of the code.
--   Storage: src/orchestra/storage/artifacts.py. Interface is ArtifactStore with the laws that the
--     runtime uses, and Files is FileArtifactStore with the proof of the laws.
--   Executors: src/orchestra/executors/, with the payloads of src/orchestra/schemas/artifacts.py,
--     src/orchestra/schemas/task.py and src/orchestra/sandbox/result.py.
--   Runtime: src/orchestra/runtime/: State is state.py, Scheduler scheduler.py, Committer committer.py
--     over any artifact store, Checkpoint checkpoint.py, and Loop the method
--     NativeAsyncRuntime.execute. Loop/Round is the body of its loop, Loop/Execute the loop with what
--     stands before and after it, Measures the method _result.
--   Sandbox: src/orchestra/sandbox/: Worker is the evaluation of lcb_worker.py, Timeout and Official the
--     bound, the requests and the results of lcb_official.py, Environment the variables that a
--     worker keeps, Docker docker.py, and Mock mock.py.
--   Adapters: src/orchestra/adapters/livecodebench/: Tasks is src/orchestra/schemas/task.py with the
--     private repository, Loader loader.py, Mapper mapper.py, and Final final_evaluator.py.
--   Llm: Retry is the loop `_post` of src/orchestra/llm/openai_compatible_async.py, Mock the client of
--     src/orchestra/llm/mock_async.py.
--   Prompts: src/orchestra/prompts/ and src/orchestra/harness/code_extract.py.
--   Telemetry: src/orchestra/telemetry/summary.py, over the files of a run as parsed.
--   Cli: Run is src/orchestra/cli/run.py, of which Run/Tasks composes the loader, the choice of the
--     sandbox and the runtime for each task; Evaluate is src/orchestra/cli/evaluate.py, which composes
--     the artifact store and the final evaluator; Prepare is src/orchestra/cli/prepare_lcb.py and
--     src/orchestra/cli/validate_graph.py, Settings src/orchestra/settings.py.
--   Tests: sample graphs, runs and uses of the theorems.
--
-- State is passed on explicitly, an exception is the result `err`. A loop that is not over a list
-- runs on fuel: the waves and the closure of the compiler on one more than the number of nodes, each
-- round of which uses up a node; `execute` on any number, where one more than the number of nodes is
-- enough, since each round that does not end the run starts a node that was pending.
--
-- Parameters stand for code outside the repository: pydantic's parsing and dumping, the digest, the
-- JSON texts of an artifact and of a checkpoint, the reading of a datetime, the sum of a list of
-- floats, Python's `compile`, the result of the sandbox, the checker of the
-- benchmark, the language model, the regular expression for blocks of code, the processes of workers and
-- containers, the generator of random numbers, and the texts of Python's json, zlib and pickle.
-- Identifiers are taken to hold no wildcard of glob. Times are in milliseconds; a
-- float of a payload is the fraction that it rounds. The tasks of a wave share no state, so that a
-- wave is the list of their results, and the tasks of a run share no directory. An exception that
-- ends a command leaves no files to look at. Of the messages of exceptions only that of a failed
-- result is kept.
--
-- Not modelled: the parsing of configuration files and of the command line, HTTP, processes, resource
-- limits and privileges, the semaphores, and the writing of reports. These are I/O and glue, or do not
-- take part in a run's own decisions.
pub mod Prelude
pub mod Exceptions
pub mod Json
pub mod Ir
pub mod Storage
pub mod Compiler
pub mod Executors
pub mod Runtime
pub mod Sandbox
pub mod Adapters
pub mod Llm
pub mod Prompts
pub mod Telemetry
pub mod Cli
pub mod Tests
