-- ===== src/Lib.antt =====
-- A model of the C++ core of the STYLY NetSync client for Godot, with proofs of what it promises.
--
-- The client keeps a room of users in step with a server. src/protocol turns messages into bytes
-- and back; the managers of src/core each keep one part of the shared state and send messages
-- through a callback that the transport provides; the client object ticks them and hands them the
-- messages that arrive.
--
-- Base        numbers, lists, integers (`int`), keys and `std::map`.
-- Wire        src/protocol/binary_writer.*, binary_reader.*: Wire.Writer has the writes, each the
--             list of the bytes it appends; Wire.Reader the reads over a buffer with an offset and
--             a latched failure; Wire.Utf8 the truncation of texts; Wire.Decode the sequence of
--             reads and checks that a `deserialize_*` function is.
-- Protocol    src/protocol/protocol_v8.*: Protocol.Session (hello, RPC, device-id mapping),
--             Protocol.Variables (network variables), Protocol.Ownership (shared objects),
--             Protocol.Pose (below). A `deserialize_*` function that returns false is `none`; what
--             it leaves in its output then is not modelled, since no caller reads it.
-- Protocol.Pose   src/protocol/pose_codec.* (Codec, Yaw, SmallestThree) and the messages that carry
--             poses (Flags, Body, Messages, Objects). They are written over any type with the
--             operations of a `double` (Double), so roundings, roots and angles are what they are;
--             what a proof uses of IEEE 754 is in the record of laws IsIeee, which Tests.Fixed
--             meets with thousandths.
-- Core.Link   the `ControlSender` callback: an arbitrary answer for each call and payload, and
--             the payloads that were accepted.
-- Core.Json   src/core/json_util.*: the encoders; Core.Json.Strings the parser of string literals and
--             Core.Json.Parser the rest of the parser, with the text of a number in place of its
--             value and the conversion of numbers (strtod, format_number) as a parameter. Their
--             loops are on fuel: in a string each round takes a byte, and of the calls for values
--             and elements at most two begin at the same byte, so there are two for each byte.
-- Core.Variables   src/core/network_variable_manager.*: Lane is the send side, which the class
--             has once for global and once for client variables; Manager has the state and the
--             operations of the client; Sync handles the incoming snapshots.
-- Core.Rpc    src/core/rpc_manager.*.
-- Transport   src/transport/zmq_transport.*: Transport.Outbox has the queues and the flush over a
--             socket that may answer each call as it likes, and over arbitrary steps of the game
--             thread during the send of a pose; Transport.Topics the classification of topics;
--             Transport.Receive the two receiving functions over the frames that wait;
--             Transport.Discovery how src/transport/server_discovery.cpp reads a server's reply;
--             Transport.Endpoint the endpoint of an address.
-- Godot       src/godot/coordinate_converter.*, over the same operations as the poses; Godot.Agreement
--             has the proofs, from laws of signs that Tests.Signed meets.
-- Core.Mapping     src/core/device_mapping.*.
-- Core.Objects     src/core/object_sync_manager.*: Sending and Due have the proofs on tick, Handover
--             those on what is sent after a change of owner, Ownership those on who owns an object,
--             Requests those on what is asked of the server.
-- Core.Client      src/core/netsync_client.*: the state, connect and disconnect; Inbox, Dispatch, Poll
--             and Calls have the rest of the operations. The managers are parts of the state, and
--             each is lent the control lane for a call. The network thread acts between polls: it
--             fills the inboxes (`handle_payload`) and appends notifications. What the transport
--             answers to is_running and has_error, and to the calls that start it, are parameters;
--             its other calls are kept as a list. Readiness, Timeout, Delivery, Early, Rooms,
--             PosePace, Silent and Announced are proofs.
-- Tests       concrete runs.
--
-- Conventions. A `std::string` or byte vector is the list of its bytes, a `double` on the wire its
-- bit pattern, an `int` an unbounded integer, a fixed-width unsigned integer a natural number with
-- its wrap-around written out. A time is a number of milliseconds counted from 1e9 seconds before
-- the clock's zero, so that the -1e9 of the source is 0, and `a - b > c` is written `b + c < a`;
-- rounding of `double` times is not modelled. A `std::map` is a list in the order of its keys.
-- Every other loop is recursion on a list, so it needs no fuel, but for the digits of a port in
-- Transport.Endpoint, whose fuel is the number plus one. The reader's length is compared
-- modulo 2 ^ 64 as in the source, which is why the theorems on bytes ask for fewer bytes than that.
--
-- The times of poses are of the same type as positions, with the subtraction and comparisons of the
-- source; in the client a time is given in each of the forms that its parts use (`Instant`).
--
-- Not modelled: the texts that the managers log; the start, the stop and the thread of the
-- transport; sockets and threads of the server discovery; the random numbers
-- and the file behind the device id; the binding to the engine's classes.
pub mod Base
pub mod Wire
pub mod Protocol
pub mod Core
pub mod Transport
pub mod Godot
pub mod Tests
