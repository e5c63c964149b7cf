-- ===== src/Lib.antt =====
-- tinyray: a registry-based member pool with direct calls between members.
--
-- The Python package (python/tinyray) is modelled; the Rust extension under it is not, and what the
-- package reads from it (an RPC outcome, the cache, the clock) is an explicit input.
--
-- Parts, and how they interact:
--   Errors     python/tinyray/_errors.py. The exceptions, as values, and results that may raise.
--   Value      The decoded application values as far as the package looks into them.
--   Identity   python/tinyray/__init__.py `_identity`, `_seat_of` and python/tinyray/_serve.py
--              `CallContext`: the token `pool/seat#tenure` that a member sends with every call.
--   RequestId  python/tinyray/_rpc.py `request_id`, `_request_id`, `_generated_request_id`,
--              `_batch_request_id`: the ids that calls carry, and that a server derives for the
--              items of a batch.
--   Endpoint   The checks of python/tinyray/__init__.py on addresses, pool names and the launcher's
--              environment, and the address check of python/tinyray/_rpc.py that a call makes.
--   Rpc        python/tinyray/_rpc.py `_transport_error` to `_decode_batch`: what a caller makes of an
--              outcome.
--   Serve      python/tinyray/_serve.py `_coerce`, `_reply` and `_Dispatch`: one call or one batch on
--              the server. Serve/Contract says what a batch means without replies or bytes, and
--              Serve/Contract/Refinement joins the server's loop with the reader of Rpc.
--   Server     python/tinyray/_serve.py `scan` and `MethodServer`: what a process serves, and the
--              listener's life; Process has it by number.
--   Watch      python/tinyray/__init__.py `_left_ms`, `_Watching`, `Watch.__next__` and `Pool.until`;
--              Watch/Loop has the streams of an event loop, `AsyncWatch` and `AsyncPool.auntil`.
--   Member     python/tinyray/__init__.py `Member`: what a member publishes, over a native client that
--              is a parameter, and its waits, blocking and on an event loop.
--   Roster     python/tinyray/__init__.py `Handle`, `Snapshot`, `Epoch`: one moment of a pool, as a
--              view of the native cache and as handles; Roster/Methods has what a name of a handle
--              means.
--   Calls      python/tinyray/_rpc.py `Call`, `_call_payload`, `_batch_payload`: what a caller sends.
--   Counters   python/tinyray/_serve.py `Counters`, with python/tinyray/__init__.py `Member.stats`.
--   Process    python/tinyray/__init__.py `join`, `Member.leave`, `_leave_at_exit`, `_after_fork`,
--              `_require_client` and the globals that they share: the one membership of a process.
--              Process/Building is the `ExitStack` of `join`; Process/Steps has the steps of a
--              process. `join` uses the checks of Endpoint and Registry and the token of Identity.
--   Registry   python/tinyray/__init__.py `RegistryInfo`.
--   Command    python/tinyray/registry.py: the command that runs the registry.
--   Pool       python/tinyray/__init__.py `_wait_native`, `_await_native` and the methods of `Pool` and
--              `AsyncPool` that wait or look members up; Pool/Waits has the waits as they are called.
--              Deadlines are those of Watch, handles those of Roster.
--   Bells      python/tinyray/__init__.py `_LoopBell`, `_loop_bell` and python/tinyray/_rpc.py
--              `per_loop`: what wakes a wait on an event loop.
--   Client     python/tinyray/_rpc.py `_prepare`, `_timeout_ms`, `_native_sync`, `invoke`, `batch` and
--              `BoundMethod`: the caller's side of a call, with Endpoint, RequestId and Calls before
--              the transport and Rpc behind it. Client/Served joins it with Serve. Client/Await has
--              `_await_native`, `ainvoke` and `abatch`: the future of an awaited call under any order
--              of its completion, its cancellation and the turns of its coroutine.
--   Codec      python/tinyray/_msgpack.py `_reject_pydantic_values`, `blob_refs`, `_decode_ext` on a
--              BlobRef, `blob_decode_scope`: the objects of a value are a heap by number, with cycles.
--   Encode     python/tinyray/_msgpack.py from `_prepare_hashable` to `dumps_with_blob_refs`: the
--              preparation of integers that msgspec refuses, the record of the BlobRefs that an
--              encoding meets, the fast attempt before it, and the extensions on their way in.
--   Examples   The theorems at concrete data.
--   Common     Lists, texts, decimal numbers, Boolean tests, lists without repetition, and the measure
--              of what a walk has not entered.
--
-- State is passed explicitly. The methods that a server runs act on a type `W` of their own, which
-- `still_ours` reads too, so that a seat may be lost in the middle of a batch. A `with` block of
-- `request_id` takes its body as a function on the state. A stream of snapshots runs over the list of
-- what its successive steps observe; the loop of `until` has one unit of fuel for each snapshot. The
-- loops of the waits run over the moments of their rounds in the same way, and ask the native waiter
-- at each. A stream may be closed from another thread at each of its steps. A walk over a value
-- has fuel for two objects more than all containers of the heap have entries, which is enough for
-- any heap: a container is entered once, and each entry is popped once. The preparation of a value
-- has fuel for two more nested calls than there are objects, which is enough because none is entered
-- below itself. What happens to an awaited call is a list of events.
--
-- Parameters, with what is assumed of them: SHA-256 (digests of 64 characters), the codec (what was
-- encoded decodes; it raises none of the package's own exceptions), the transport (a reply arrives
-- with its fields), the binding of a Python signature, the body of a method, the
-- native client (a call that publishes replaces what peers see, or raises and changes nothing), the
-- cache (a lookup by seat finds a member of that seat), and the registry's history (fields move only
-- with the version). The constructors and first beats of the native client and server answer or raise
-- as they like (`Outside`); a new client has a number that none had that left, and a forked child a
-- pid that none of the inherited members has. Native waits and the opening of blobs are parameters.
-- msgspec's encoder is given by what it hands to its hook and how it ends then, the interpreter by its
-- limits of digits and of nested calls (`Encoder`).
--
-- Not modelled: the native extension, msgspec's encoder and decoder, logging and warnings, event
-- loops but for what a round of a wait reads and the steps of a bell, exceptions of a closing client
-- or server, the end of a native heartbeat whose member was superseded or refused, the walks over type
-- annotations in python/tinyray/_msgpack.py, a dataclass with a field that is not set, and the wording
-- of messages except where a caller reads it. Texts are lists of code
-- points; an identifier or digit is one of ASCII.
pub mod Common
pub mod Errors
pub mod Identity
pub mod RequestId
pub mod Value
pub mod Rpc
pub mod Serve
pub mod Endpoint
pub mod Watch
pub mod Member
pub mod Roster
pub mod Counters
pub mod Calls
pub mod Codec
pub mod Encode
pub mod Command
pub mod Registry
pub mod Process
pub mod Pool
pub mod Bells
pub mod Client
pub mod Server
pub mod Examples
