-- ===== src/Lib.antt =====
-- Soledad: documents with revisions, indexed and synchronized between replicas.
--
-- The library models the synchronization core of src/leap/soledad, which is Python:
--
--   VectorClock   src/leap/soledad/common/l2db/vectorclock.py: `VectorClockRev`, the revision of a
--                 document. A clock is Python's dict as an association list; Rev reads and prints
--                 the text.
--   Document      src/leap/soledad/common/l2db/__init__.py: `DocumentBase` and `Document`.
--   Json          the values of `json.loads`, and the record `Python` of what the program uses of
--                 Python's library: JSON, `==`, `lower` and `split`. It is a parameter.
--   Query         src/leap/soledad/common/l2db/query_parser.py: getters, transformations, and
--                 `Parser` (Query/Parser) for index expressions.
--   Index         src/leap/soledad/common/l2db/backends/inmemory.py: `InMemoryIndex`.
--   Store         src/leap/soledad/common/l2db/backends/__init__.py and inmemory.py beside it:
--                 `CommonBackend` and `InMemoryDatabase`. State holds the fields of the database,
--                 and actions: a method gives its result, or the exception, with the database as
--                 it is left. Read, Revs, Write, Conflicts, Indexes, Changes and Incoming hold the
--                 methods; Soundness and Reach are about all of them, in any order of calls.
--   Sync          src/leap/soledad/common/l2db/sync.py: `SyncExchange` and `LocalSyncTarget`
--                 (Sync/Exchange) at the target, `Synchronizer` (Sync/Synchronizer) at the source.
--   Server        src/leap/soledad/server/state.py and src/leap/soledad/server/sync.py:
--                 `ServerSyncState`, the server's `SyncExchange` over any backend, and
--                 `SyncResource.post_put`.
--   Blobs         src/leap/soledad/server/_blobs/fs_backend.py: `FilesystemBlobsBackend` over a
--                 file system in memory. `os.path`, `du` and the JSON of flags are the record
--                 `System`, a parameter; the body of a request is a `Producer`, which may fail after a
--                 part of it.
--   SoledadBackend  src/leap/soledad/common/backend.py and document.py beside it: `SoledadBackend` over
--                 the record `Database`, the methods of the database that it calls, which is a
--                 parameter (CouchDB, in the program), and `SoledadSyncTarget`. Cache has the cache
--                 and the batches, Write and Incoming the documents with their conflicts, Handed
--                 what is only handed on. Session has the calls about replicas in any order,
--                 against a table of replicas.
--   Wire          the streams of documents of a sync. What the client sends: `RequestBody` and
--                 `DocStreamProducer` (src/leap/soledad/client/http_target/support.py and
--                 send_protocol.py), in Body; `_FencedReader`
--                 (src/leap/soledad/common/l2db/remote/http_app.py), in Reader, and
--                 `HTTPInvocationByMethodWithBody` (src/leap/soledad/server/__init__.py), in
--                 Invocation, read it. What the server answers: `HTTPResponder` (http_app.py) and
--                 `SyncResource.post_get` (src/leap/soledad/server/sync.py), in Responder, write it,
--                 and `DocStreamReceiver` (src/leap/soledad/client/http_target/fetch_protocol.py),
--                 in Receiver, reads it.
--   Client        src/leap/soledad/client/_db/blobs/sync.py: `with_retry` and `BlobsSynchronizer`
--                 over the record `Blobs`, the methods of the blob manager that it calls; and
--                 `__fetch` of that manager (src/leap/soledad/client/_db/blobs/__init__.py) in
--                 BlobsFetch, over the record `Manager`: the download and the local database.
--   Prelude       texts as lists of codes, dicts, sorting, split and join, decimals, exceptions,
--                 and methods of an object that keep what they changed before an exception.
--   Examples      a concrete library, databases and a disk, on which each theorem is applied.
--
-- A sync takes `whats_changed` of the source, sends those documents to the target, which inserts
-- what is newer by `_put_doc_if_newer`, and returns what changed at the target; both sides record the
-- generation up to which they know the other. Revisions are compared by `is_newer`.
--
-- Numbers are natural numbers: Python's integers do not wrap, and counters, generations and sizes
-- are never negative. Integers in JSON content are signed. Allocated document and transaction ids
-- (uuid4) are arguments. The parser recurses on fuel, twice the number of tokens and one more:
-- a call of `_parse_term` takes a token before it goes on. `getline` recurses on what remains of the
-- request and two more, since each of its turns takes from it; the server's loop over documents on
-- the characters left and one more, since each turn reads a line. `with_retry` and the loops of
-- `BlobsSynchronizer` have no bound of their own, and take one as an argument. All other loops are
-- structural.
--
-- A text is a list of codes; `strip` and the pattern of document ids treat ASCII. Trace hooks for
-- tests, `close`, `__repr__` and the document factory are left out, as are the couch and SQL
-- backends, encryption, authentication, and the requests around the streams: they are SQL, requests
-- and input and output around what is modelled.
pub mod Prelude
pub mod VectorClock
pub mod Json
pub mod Document
pub mod Query
pub mod Index
pub mod Store
pub mod Sync
pub mod Server
pub mod SoledadBackend
pub mod Blobs
pub mod Client
pub mod Wire
pub mod Examples
