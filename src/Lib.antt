-- ===== src/Lib.antt =====
-- xrdclient: the protocol core of a client for XRootD servers, modelled and proved.
--
-- The program's core does no I/O. `SessionMachine` (src/xrdclient/proto/machine.py) takes
-- requests and bytes, and gives buffers to send and events; the session layer, the client and
-- the copy engine drive it over sockets. This library models that machine and what it stands on:
--
--   Prelude (Tests, Lists, Int, Maps): Boolean tests, lists of native length, integers and
--     association lists, for the dictionaries and sets of the source;
--   Errors, Exec: the exceptions, by what raised them, and code that raises and changes a state;
--   Wire/Words: the number formats of `struct`;
--   Wire/Buffer: `Reader` and `Writer` of src/xrdclient/proto/buffer.py, with Bounds and Layout;
--   Wire/Frames: src/xrdclient/proto/frames.py, request frames and response headers, with RoundTrip;
--   Wire/Responses: the bodies of src/xrdclient/proto/responses.py that the machine reads;
--   Wire/Requests: the encoders of src/xrdclient/proto/_requests_session.py, in File and Attributes
--     those of src/xrdclient/proto/_requests_io.py, in Namespace those of
--     src/xrdclient/proto/_requests_ns.py and _requests_query.py, with Fields and Headers;
--   Pages: the pages of src/xrdclient/crypto/crc32c.py, with RoundTrip;
--   Signing: src/xrdclient/crypto/sigver.py, with Verify;
--   Machine: src/xrdclient/proto/machine.py. Types has its state, Streams the stream ids (`submit`,
--     `release`, `abandon`, `lease_sids`, ...), Outbound the way of a request out (`_send`, `_frame`,
--     `resume`, `close`), Bringup the way to READY (`_bringup` and what it calls), Answers one handler
--     for each reply status, and Inbound the loop of `_parse`, `_dispatch` and `receive_data`;
--   Machine/Ids, Machine/Framing, Machine/Reassembly: what is proved of stream ids, of the frame loop,
--     and of a reply that comes in parts;
--   Client/Vector: the vector reads and writes of src/xrdclient/client/_vector.py. Reply has how the
--     segments of the replies are claimed, Read `readv` of src/xrdclient/client/_reading.py; Ceilings,
--     Writes, Walks, Claims and Whole have what is proved of them;
--   Client/Writing: `writev`, `pgwrite` and in Clone `clone` of src/xrdclient/client/_writing.py. Store
--     has the bytes of a file, Vectors, Clone/Spans, Clone/Copies, Paged and Intact what the writes do to them;
--   Session/Pool: the pool of src/xrdclient/session/pool.py, with the loans (`_Loan`) of
--     src/xrdclient/session/router.py in Calls. Credentials has `credential_files` of
--     src/xrdclient/auth/__init__.py with what it calls in auth/ztn.py, auth/sss.py and _gridpaths.py,
--     with Ambient, Identity `_identity`, with Recall; Buckets, Takes,
--     Safe and Keeps have what the steps do with the buckets, Ledger where the sessions are, and Runs
--     the histories;
--   Session/Text: `split`, `join` and `partition` of Python's `str`, with Laws;
--   Session/Rewrite: src/xrdclient/session/_rewrite.py. Tried and Merge have the lists of servers that
--     were tried, Hops what several hops make of a path, Tokens the tokens of redirects;
--   Tests: the definitions at concrete inputs.
--
-- A Python object that changes is a record that is passed on: a function of the model returns the
-- record as the method left it, also when the method raised. A handler of the source may store in
-- the framer that a trailer is to come; here it returns that. A framer is taken out of its
-- dictionary while its bytes are read, and put back. Text is its UTF-8 bytes. Exceptions carry what
-- they were raised for, not their message, and the host and port, which only messages name, are left
-- out. Seconds are whole numbers.
--
-- The loop of `_parse` runs on fuel, twice the length of the buffer and a few more: every round but
-- the last consumes bytes of the buffer, a header or a trailer that was due, and a buffer has no
-- more of them. A trailer of negative length, which the source does not refuse, is sliced as Python
-- slices it.
--
-- The loops over pages run on the length of their input as fuel, and every round takes a byte at
-- least.
--
-- A client's `Fetch` takes the requests of a vector read and returns the bodies of the replies; what
-- sends a write changes the state of a server, of any type.
--
-- In the pool a session is its object's identity, and a `Scene` says what the world is like at a
-- call: the time, which sessions are closed, broken or poolable, and whom a config logs in as. A
-- loan that routers share gives its connection back to the pool, which reaps first; so a `leave`
-- inside `reap` reaps the rest of the queue. The reaper's thread is one more caller of `reap`.
--
-- Parameters: the CRC-32C, of which it is assumed that it has 32 bits, SHA-256 and the block
-- cipher (`Crypto`; what is assumed is that decryption undoes encryption), the authentication
-- mechanisms (a `Credential` answers the challenges it has seen, and `Config.select` is the
-- ladder of mechanisms for a server's offer), the block of random bytes, in `Mechanisms`
-- Python's `repr`, and in `Finders` what the package xrdsec finds: the token files, the proxy and the
-- Kerberos cache of the environment (what is assumed of the first two is that of the environment they
-- depend on the variables of AMBIENT_ENV alone, for a process that does not change its user).
--
-- Not modelled: sockets, TLS and threads, the router and the bulk plane of the session layer, the
-- client's other operations, the copy engine, HTTP and S3, and the command line.
pub mod Prelude
pub mod Errors
pub mod Exec
pub mod Wire
pub mod Signing
pub mod Machine
pub mod Pages
pub mod Client
pub mod Session
pub mod Tests
