-- ===== src/Lib.antt =====
-- librpc is a C library for remote procedure calls. A value that it passes around is a tree of
-- objects (src/rpc_object.c): scalars, strings, binary data, descriptors, shared memory, errors, and
-- arrays and dictionaries of objects. A program reads and writes such trees by dotted paths and
-- selects elements of an array by rules (src/rpc_query.c). Two ends of a connection send each other frames,
-- which are such trees (src/rpc_connection.c); a call that arrives is dispatched to a method of the
-- service model, which answers it or streams its answer (src/rpc_service.c).
--
-- Base: what the components share. Base/Int has the 64-bit signed numbers as a ℤ and the conversions
--   of C between integer types, Base/Lists lists over the native numbers, Base/ByteStrings strings
--   as lists of bytes, Base/Outcomes the runs of C code: a result, or the fault that ends it.
-- Object: src/rpc_object.c. Object/Types has the tree: `Object` with a constructor for each type of
--   object, its arrays as `Items` and its dictionaries as `Fields`. A dictionary is a
--   list of its entries, where a new key goes to the end. GLib promises no order of a hash table's entries,
--   so the order of the list stands for nothing, and what is read back or copied is compared by keys and
--   indices (`SameContent` of Object/Content). Object/Value has
--   the getters and constructors of scalars (rpc_string_create is `string_create`, and so on: each
--   function is named as in C, less rpc_). Object/Array and Object/Dictionary have the containers, and
--   Object/Array/Typed and Object/Dictionary/Typed their setters and getters of plain values.
--   Object/Build makes containers of lists of values (rpc_array_create_ex, rpc_dictionary_create_ex).
--   Object/Equal has rpc_equal and rpc_array_contains, Object/Copy rpc_copy, rpc_hash and rpc_cmp.
--   Object/Pack has rpc_object_vpack, which builds an object by a format, over the format as a list of
--   bytes and its arguments as a list (`Arg`); Object/Unpack has rpc_object_vunpack with
--   rpc_object_unpack_layer, where the result lists what each pointer got.
-- Query: src/rpc_query.c. Query/Text has the tokens of paths and the number parsers of C,
--   Query/Path rpc_query_get, rpc_query_set and rpc_query_delete, Query/Rules the operators and
--   rpc_query_apply, Query/Iter the iterator of rpc_query with rpc_query_next.
--
-- Connection: src/rpc_connection.c, and the operations of a running method of src/rpc_service.c.
--   Connection/Frames has the frames (rpc_pack_frame and the functions that send), Connection/Call one
--   call with its queue, timeout and sequence numbers, and what answers and the client do to it,
--   Connection/Stream rpc_function_respond, rpc_function_start_stream, rpc_function_yield,
--   rpc_function_end and their like. Connection/State has the connection, Connection/Handlers the
--   handlers on_rpc_response to on_rpc_error, Connection/Calls rpc_call_alloc, rpc_connection_call,
--   on_rpc_call and rpc_close, Connection/Subscriptions and Connection/Events the subscriptions and
--   on_events_event to on_events_unsubscribe, Connection/Dispatch rpc_connection_dispatch and
--   rpc_recv_msg, Connection/Callbacks rpc_callback_worker, Connection/Descriptors rpc_serialize_fds
--   and rpc_restore_fds.
--   Connection/Flow is a stream as a step relation on its two ends and the frames in flight between
--   them; Connection/Timeouts one on the life of an outbound call. Both use the functions above for
--   their steps, and Connection/Delivery is about the dispatch of the frames of those steps.
-- Service: src/rpc_service.c. Service/Registry has instances, interfaces and members, Service/Dispatch
--   contexts and rpc_context_dispatch, which is what a connection's on_rpc_call takes as `dispatch`,
--   Service/Worker rpc_context_tp_handler, with the code of the method and of the hooks as arguments.
-- Server: src/rpc_server.c: the queue of calls of a server that is paused, resumed and closed
--   (rpc_server_dispatch, server_queue_purge), over the dispatch of a context as an argument.
-- Serializer: src/serializer/json.c and src/serializer/msgpack.c, which turn an object into the bytes of
--   a frame and back. Serializer/Json/Write has the calls that rpc_json_serialize makes of the generator
--   of yajl, Serializer/Json/Parse the callbacks that yajl's parser calls on rpc_json_deserialize's
--   context; Serializer/Json/RoundTrip is about the one after the other. Serializer/Msgpack/Write has the
--   items that rpc_msgpack_serialize hands to mpack's writer, Serializer/Msgpack/Read rpc_msgpack_deserialize
--   over the nodes of mpack's tree, and Serializer/Msgpack/RoundTrip both together.
-- Validators: src/validator/int64_range.c, src/validator/string_length.c, src/validator/string_regex.c.
--
-- State and faults. An operation that changes an object in place returns the object that it leaves; one
-- below a path returns the root with the change in it. So an object has one place in its tree: two
-- parents that share a child are not modelled, nor are reference counts. A NULL pointer is `none`.
-- A failed assertion or rpc_abort is the fault `abort`, a read outside of an object `bad_access`, and an
-- error that is left for rpc_get_last_error is a value beside the result.
--
-- Numbers. A uint64 is a natural number, an int64 an integer, a double its bit pattern. Differences of
-- size_t wrap at 2^64, as does the hash of bytes; arrays have fewer than 2^32 elements, since GPtrArray
-- counts them by a guint, and the statements say so where they need it.
--
-- Calls and connections. An operation on a call returns the call, the frames that it sent and its return
-- value (`Turn`), one on a connection the connection, whose `sent`, `work`, `reports` and `aborts` list
-- what it handed to the transport, to the callback pool, to the error handler, and which abort handlers
-- it ran. Each operation runs under the lock of its call, so it is one step. An operation that waits for
-- a grant gives `none`, which stands for the wait; its step is taken when it can go on. The hash tables
-- are tables of keys (Base/Tables), whose order is that of insertion. A sequence number is kept as the
-- 64 bits of its int64_t, and wraps at 2^64; the reference count of a subscription is an int that wraps.
--
-- What this repository does not hold is the parameter `Platform` (Object/Platform): fstat(), GLib's
-- hash of a string, the conversion of a double to an integer, the backtrace, regular expressions and
-- fnmatch(). Whether the transport takes a frame, and the error that it leaves if not, is the
-- parameter `Link` (Connection/Call). rpct_new of the type system is an argument of rpc_object_vpack. yajl,
-- base64 and mpack are parameters of the serializers, with what they promise as named hypotheses. The sort of a query is a function on the list of elements.
--
-- Fuel. The loops of an iterator run on `rounds_left`, one more than the elements that are left; the
-- statements on Query/Iter show that it suffices. `collect` calls rpc_query_next until it returns false,
-- at most as often as its argument says. rpc_object_vpack runs on a round for each character of its format
-- and one more, rpc_object_vunpack on two for each and one more, since a layer inside starts at the character
-- that its caller stopped at. rpc_msgpack_deserialize runs on as many steps as its argument says, one for each
-- error inside of an error.
--
-- Not modelled: memory, locks and the references on objects, calls and connections; the YAML serializer
-- and the table of serializers (rpc_serializer.c); the type system, which rpc_send_frame and rpc_recv_msg run on each frame
-- (for recv_msg it is an argument); the connections of a server; and all input and
-- output.
pub mod Base
pub mod Object
pub mod Connection
pub mod Service
pub mod Serializer
pub mod Server
pub mod Validators
pub mod Query
