-- ===== src/Lib.antt =====
-- Get Modular: a verification library for the module composition toolkit.
--
-- The program turns inert module declarations and a profile into a composition plan. Its parts that are
-- modelled here, each beside the code that it translates:
--
-- - Lifecycle: packages/lifecycle-kernel/src/features/lifecycle/kernel.ts. A kernel keeps a record for
--   each generation (phase, open calls, open custody leases) and for each lease. An identity, which the
--   code makes by `Object.create(null)`, is the number of that object; the `WeakMap`s are maps from such
--   numbers; a lease names the generation record that it shares by that generation's number.
--   Lifecycle.Kernel has one function for each operation of `createLifecycleKernel`, which returns the
--   new kernel with the operation's result. Lifecycle.Trace runs lists of calls.
-- - Scanner: packages/core/src/features/raw-scanner/owned-iterative/scanner.ts, the JSON lexer. The bytes
--   are a list of numbers, `undefined` and -1 are `none`. Scanner.Bytes, Scalars, Strings, Numbers and
--   Cursor hold the code's functions. The string loop takes fuel, one more than its limit, and each
--   round reads at least a byte; the loops over digits and white space recur on the bytes that are left.
-- - Documents: packages/core/src/features/input-admission. Frames and Scan are `scanRawDocument` of
--   raw-document.ts over the cursor of Scanner: the stack of frames with its top in front, the calls of
--   the observers as a list. Grammar is JSON as lists of tokens, Accepts what open frames still take.
--   The loop takes fuel, one more than there are bytes, and each round but the last passes over a byte.
--   Identities is identity-format.ts, Paths is document-path.ts. Integers is raw-integer.ts: a loop over
--   a span counts the bytes that are left and needs no fuel, an exponent is a sign and a magnitude, and
--   Spelling says which numbers the bytes spell and what a verdict on one means.
-- - Canonical: packages/core/src/features/canonicalization/owned-jcs/factory.ts. Values has what the code
--   can ask of a JavaScript value; an object is a reference into a heap, so that a value may be cyclic.
--   A number is known by its finiteness and its text. Writing has `quote`, the literal that
--   `JSON.stringify` makes of a well-formed string, and the text encoder; Machine is the stack machine,
--   whose loop takes fuel; Trees has trees, their canonical text, and the number of rounds they take.
--   Rounds and Refinement run the machine on a tree; Represents says, by the properties of the objects,
--   which values stand for a tree, and Serialization that the machine reads the tree in them, by way of
--   Picking and Properties; Literals and Units are the bytes of a literal and how Scanner reads them.
-- - Diagnostics: packages/core/src/features/diagnostics, with the types of
--   packages/core/src/features/authoring/diagnostic-types.ts. Diagnostics.Order compares two diagnostics;
--   a comparator is modelled by the sign of its result, and the canonical bytes of details are an
--   argument, as in the code. Diagnostics.Collector is the bounded max heap; its loops take fuel, the
--   length of the heap and one more.
-- - Composition: packages/core/src/features/composition-semantics. Wire has the admitted data;
--   Declarations and Profiles are the two censuses, BindingRecord and Bindings the checks of bindings,
--   Resources the limits, Analysis the whole of `analyzeCompositionSemantics`. A `Map` is an association
--   list in insertion order, `undefined` is `none` and `null` is `some none`. What the code hands to the
--   collector is returned as a list in the same order, and Analysis adds it to the collector.
-- - Graph: ready-queue.ts, graph-components.ts and selected-graph.ts of the same folder. Vertices are
--   numbers, a stack is a list with its top in front, and a missing array element throws. The fuel of a
--   loop is above the number of its rounds: `rounds` counts the vertices and the edges.
-- - Observation: packages/observation/src/features. Engine has the operations of `StoreEngine`
--   (store/engine.ts); a registration is known by its id, a scope by a number, and values are compared
--   by an equality that stands for `Object.is`. A key is known if it has a value. Index has what the
--   buckets are to the registrations, Writes and Effects the parts of `set`, Patches and Sets what
--   it does in the terms of its patch, Reach the sequences of calls and flushes (IndexedFlushes has what
--   a flush keeps). Watches adds admission.ts, watch.ts and the flush, Current the sequences of calls with
--   watches: a callback is the calls between two rounds of a flush, and the scheduler runs one flush at
--   a time. `close` detaches the watches by further calls. The loop of `missedDepth` goes down from the
--   limit of 64 and needs no fuel. Loads is store/load.ts, one load at a time with its share of the
--   counters: a callback of an offer is whether it detaches the load, a run of the loader is what happens
--   between its start and its end, and LoadStates has the sequences of calls.
--
-- Not modelled: of input admission the second pass over a document, the shapes, the paths of numbers
-- and the resource meter; the compiler facade and plan output; of observation the capture of values
-- (with what `set` throws on a malformed patch), the publication of results, the delivery queue and
-- the calls of the host (reporters, abort signals, callbacks); and the packages resources, assembly
-- and conformance. Freezing and copying of objects have no counterpart, since the values here are
-- immutable.
pub mod Base
pub mod Lifecycle
pub mod Scanner
pub mod Documents
pub mod Canonical
pub mod Diagnostics
pub mod Graph
pub mod Composition
pub mod Observation
