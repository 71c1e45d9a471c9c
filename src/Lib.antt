-- ===== src/Lib.antt =====
-- Adapt follows storm cells through radar scans: modules detect cells, project and track them, and
-- a consumer selects the cell that a radar should observe next. These files model the parts that
-- carry the program's own logic, all under src/adapt.
--
-- Constraint propagation, modules/tracking/matching: Tracking/Assignment is assignment.py
--   (ConstraintPropagator.resolve as `resolve`, its loop as `peel`, AssignmentGraph as
--   `components`), Tracking/Hungarian is hungarian.py. The loop of resolve removes an edge in each
--   round but the last, so `peel` takes the number of edges as fuel. A set of edges is a list
--   without repetitions.
-- Identities, modules/tracking/identity.py: Tracking/Identity. `encode_loop` takes the value plus
--   one as fuel, for a loop that divides the value by 36.
-- The tracking graph, modules/tracking/graph.py: Tracking/Graph, over networkx.DiGraph as the
--   interface `DiGraph` with its laws `DiGraphLaws`.
-- Values and events: Tracking/Models is models.py and config.py, Tracking/Events the rows of
--   events.py.
-- Candidates: Tracking/Geometry is matching/geometry.py, Tracking/Candidates is
--   matching/candidate.py, matching/validation.py, motion.py, projection.py and
--   CellTracker._build_edges.
-- The tracker, modules/tracking/module.py: Tracking/Tracker (identities, nodes, motion),
--   Tracking/Frame (matches, splits, merges, births and terminations of a pair of scans) and
--   Tracking/Track (`track` itself, the choice between the first scan, a reset and a pair of
--   scans). Its state is the record `Tracker`, which every method passes on; what Python wrote
--   before an exception stays written, so an `Exec` returns the state beside the exception.
--   `Env` in Tracking/Env holds what the methods call and do not implement. Tracking/History has
--   the invariant of the graph and the identity map, a lemma for each method that keeps it, and the
--   trackers that sequences of scans reach.
-- The execution graph, execution/graph: Execution/Node is node.py with the declarations of
--   modules/base.py, Execution/Builder is builder.py (`build_nodes` behind the constructors of the
--   nodes), Execution/Executor is executor.py. `run_loop` takes the iterations that the source
--   itself allows (n^2 + n + 1 for n nodes) and raises RuntimeError where the source does. The set
--   `completed` is a list in the order of completion, and `world` stands for all that a module
--   changes outside of the context.
-- The registries, execution/module_registry.py and runtime/sources.py: Execution/Registry. The
--   choice of the modules, execution/pipeline_builder.py: Execution/Pipeline.
-- Target selection, consumers/target_selection: Targets/Models is config.py, snapshot.py and
--   selection.py, Targets/Rules is rules.py and _geo.py, Targets/Engine is engine.py.
-- Lookup tables, modules/tracking/lut.py and utils/cell_uid_lut.py: Tracking/Lut.
-- The store, persistence: Persistence/Rows has the rows of configuration/schemas/
--   collection_catalog.sql, Persistence/Catalog the writing methods of collection_catalog.py and the
--   lookups, Catalog/Queries its listings; Persistence/Objects is objects.py, with the staged and the
--   published files as dictionaries; Persistence/Registry is store_registry.py over
--   store_registry.sql, Registry/Queries its listings, Registry/Machine the machine on the stages
--   of the runs that it is compared with. Each method is one transaction: it runs under
--   the lock of its connection. A constraint of a schema is a test before the write, and the
--   exception for it is the one that the method lets out. The times of the clock and the ids of
--   uuid4 are arguments; a time is a number of microseconds.
-- Acquisition, runtime/acquire.py: Acquisition; modules/acquisition/module.py:
--   Acquisition/Downloader is _process_scans, where each scan comes with the stop flag, the readings
--   and the outcome of the download at its turn. LocalDirectorySource of runtime/sources.py:
--   Acquisition/Directory, with the files in the same way.
-- The processor, runtime/processor.py: Runtime/Setup (state and configuration) and
--   Runtime/Processor (_run_loop, process_file, _run_scan and their helpers). The router of the
--   outputs and what is read off datasets are arguments, so the theorems hold for all of them.
--
-- The modules that a registry creates are the nodes that the builder links and the executor runs.
-- CellTracker is what one such module runs on each scan: _build_edges yields the edges that
-- resolve splits into matches and contested ones, the components of the latter go to the Hungarian
-- matcher, and each match continues a track with the identity that identity.py makes. Target
-- selection reads the tracked cells of a snapshot. The downloader hands each scan to the acquirer,
-- which commits its bytes to the object store, catalogs them and registers the scan; the processor
-- takes the message, looks the object up in the catalog, runs the execution graphs over it and
-- marks a scan that fails.
--
-- Prelude has lists, tests and counting, Dict the Python dictionary as an association list in
-- insertion order, Exec the statements that change an object and may raise. A string is the list
-- of its code points. Floats are a parameter (`FloatOps` of Floats), whose division is `divide`,
-- which raises ZeroDivisionError, where the divisor is neither tested by the source nor a constant;
-- where a theorem needs their order, it takes the laws `IsOrdered` of IEEE 754, which the integers
-- of Examples/Integers satisfy. blake2b, sha256, networkx, scipy and the calendar are parameters as
-- well.
--
-- Not modelled: the extraction of the cells from xarray and pandas, and the assembly of rows into
-- tables; detection, projection and the other numerical modules; the tables of products and tracks
-- and the output router; SQLite itself, connections and WAL; threads, signals and the orchestrator;
-- the poll loop and the S3 client of the downloads, and the times in the names of files; the pydantic
-- schemas of the configuration; the client API, the dashboard, the plots and the command line; log
-- lines, telemetry and the texts of exceptions.
pub mod Prelude
pub mod Dict
pub mod Exec
pub mod Floats
pub mod Tracking
pub mod Execution
pub mod Targets
pub mod Persistence
pub mod Acquisition
pub mod Runtime
pub mod Examples
