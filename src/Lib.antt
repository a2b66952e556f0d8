-- ===== src/Lib.antt =====
-- A verification library for fuaran-rs: the Rust core of a user interface described as a tree of
-- nodes, which a producer edits by operations ("tree ops"), and which several hosts render.
--
-- The program's parts and how they interact. A tree (src/wire/generated.rs, src/wire/model.rs) is
-- changed only by the apply engine (src/ops/mod.rs), which either gives a new tree with telemetry or
-- an error; the diff (src/diff/mod.rs) gives such operations from two trees; the op stream
-- (src/opstream) records applied operations in a hash chain; the driven session (src/serverdriven)
-- applies operations that arrive in frames, behind a capability gate (src/gate). The placement verbs
-- (src/ops/placement.rs) state an insert or a move at a named place as operations of the engine, and the
-- merge (src/dag/merge.rs) joins two edited trees over their common base. A grid's table is edited by
-- ops of its own (src/core/grid_edit.rs) with an undo and redo history. A renderer asks the egress
-- policy (src/render/egress.rs) before it emits a URL.
--
-- Which file models which part:
-- - Prelude: the library names, lists and counts the modules share.
-- - Tree: the node type and its walks. `child_nodes`, `find_node` and `find_node_mut` of
--   src/ops/mod.rs are Tree/Walk and Tree/Focus; a mutable reference to a found node is the node with
--   the function that puts a node in its place (`focus`). Payloads the engine never looks into (a
--   leaf's spec, a binding, a text source, a JSON value) are the type parameters of `Wire`. Tree/Style
--   is the semantic style and its delta.
-- - Ops: the operations, errors and results; Ops/Path is the grammar of an UpdateProp path
--   (Ops/Path/Fields: the paths without an index), Ops/Structural the five structural operations and
--   Ops/Apply the engine: `apply_one`, the batch, the limits and the duplicate-id check after an
--   apply. The tables of per-kind property setters (`apply_update_prop`, the binding slots) are the
--   parameter `Tables`; what the theorems need of them is `KeepsChildren`: a setter keeps the node's
--   children.
-- - Ops/Ids, Ops/Reorder, Ops/Edits, Ops/Unique, Ops/Exact: the ids of a tree through an operation;
--   Ops/Exact rests on Tree/Focus/Agree, where the searches of a tree with unique ids agree.
--   Ops/Shrink and Ops/Limits: its size and depth. Ops/Batch: the failing operation of a batch.
-- - OpStream: src/opstream. OpStream/Chain is chain.rs; the hash is fuaran-core's `payload` and
--   `link`, which with the codecs are the parameter `Spine`. OpStream/Sink is the in-memory sink of
--   sink.rs (its trait methods `append`, `replay`, `latest_sequence` are `store`, `in_range`,
--   `latest`), and OpStream/Replay is replay.rs.
-- - Gate: src/gate/mod.rs. A `BTreeSet` is the sorted list of its members (Prelude/Ordered).
-- - Driven: src/serverdriven. Driven/Session is driver.rs: a step is a function from a session to the
--   next and the reply, where the handler is a pure function of the tree and the event (the boxed `Fn`
--   of the program may keep state of its own), and Driven/Session/Vetting what its gate looks at, over
--   the mounts of Driven/Session/Declared. Driven/Connection is connection.rs over an abstract
--   `Channel` with the in-memory channel of channel.rs; a `u64` sequence wraps at 2 ^ 64.
-- - Edge: src/edge/mod.rs. A store is the interface `SessionStore` with the contract `Lawful`;
--   Edge/Memory is the reference store, Edge/Resumed the life of a session up to its next activation.
--   The wire documents are opaque (`Codec`).
-- - Diff: the style edit of src/diff/mod.rs.
-- - Teleport: the base64url of src/teleport/base64url.rs, on bytes and characters as numbers.
-- - Placement: src/ops/placement.rs, the clone verbs in Placement/Clone. A minter's loop runs on as
--   many steps as ids are taken, and one more, which is enough (Placement/Clone/Probe); its `u32`
--   counter is a number, since so many ids do not fit in memory. Placement/Slot is the found parent
--   whose children are written (`find_node_mut` with Tree/Focus/Put), Placement/Order the order a
--   placement states, Placement/Insert and Placement/Stated what the ops of `place_op` do, with
--   Placement/Whole on the children that a reorder picks, and Placement/Granted what `apply` answers
--   to them. `expect`s that a layout parent meets are refusals that do not arise.
-- - Merge: src/dag/merge.rs. Merge/Facets compares one facet, Merge/Children the children, with the
--   recursion of `merge3`: a base child carries its own merge, so the recursion is on the base. The
--   conflicts that Rust pushes to a vector are the first part of `Merging`. The canonical encoder and
--   the ordinal order of texts are the parameter `Canonical`. Merge/Quiet, Merge/Base, Merge/News and
--   Merge/Swap are its theorems.
-- - Grid: src/core/grid_edit.rs over the table of src/core/dataframe.rs and src/core/transform.rs.
--   Grid/Instant reads an instant text as its characters' code points, Grid/Cells is what a column
--   takes, Grid/Edit the ops and their inverses and Grid/History the edit history (`apply`, `undo`,
--   `redo` are `edit`, `undo_edit`, `redo_edit`). Floats, the metadata of a schema entry and pipeline
--   steps are the parameter `Compute`. The evaluator of pipelines (`eval_pipeline` of
--   src/core/transform.rs) is an argument of which nothing is assumed: the theorems on the shape of a
--   table and on histories leave pipelines out. An index past the end, of a cell in SetCell or of the
--   schema in InsertColumn, panics in Rust and is the error `panicked` here; on an `IsTable`
--   (Grid/Edit/Schema) it does not arise.
-- - Egress: the URL floor of src/render/sanitize.rs (Egress/Floor) and the policy of
--   src/render/egress.rs. A text is its characters' code points; white space and lower case, which the
--   standard library reads from the Unicode tables, are the parameter `Unicode`.
--
-- Numbers are the native ℕ. Sizes and depths are exact: a `usize` counts nodes that exist in memory.
-- Error messages are left out: an error is its code, with the failing index of a batch. Ids are
-- strings, compared by equality; the ordinal order used for sorting is a parameter of `Tables`.
-- The walks are structural over the tree, and a batch over its list. The decimal digits of n run on
-- fuel, n + 1: a number has no more digits than that. The loop of a minter runs on fuel too, as said
-- at Placement.
--
-- What is not modelled: JSON codecs and generated wire types beyond the node, the renderers, the
-- theme, the FFI and WASM bindings, the bounded program runtime and the validator. They are parsers
-- and printers of large vocabularies, or calls of code outside the repository. Of the render
-- policies, the sweeps of HTML and CSS; of the grid, the row delta; of the merge, the printer of the
-- refusal envelope; the record DAG of src/dag; the pipeline evaluator of src/core/transform.rs; the
-- unit algebra.
pub mod Prelude
pub mod Tree
pub mod Ops
pub mod Placement
pub mod OpStream
pub mod Gate
pub mod Grid
pub mod Egress
pub mod Driven
pub mod Edge
pub mod Diff
pub mod Merge
pub mod Teleport
pub mod Tests
