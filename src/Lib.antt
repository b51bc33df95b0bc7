-- ===== src/Lib.antt =====
-- A verification library for solidframe, a C++ framework for asynchronous applications: its utilities, its
-- binary serialization, and mpipc, the message passing over connections.
--
-- The parts and their files. The paths are from the repository's root.
--
--   Prelude         What all files share: Boolean tests on native numbers, tables, words and lists.
--
--   Utility         solid/utility. Utility/Bits: bit_count and leading_zero_count of utility.cpp and common.hpp.
--                   Utility/Padding: padded_size and fast_padded_size of common.hpp, and the byte counts of
--                   algorithm.hpp. Utility/Crc: compute_value_with_crc and check_value_with_crc of algorithm.hpp.
--                   Utility/Revert: bit_revert, pack and unpack. Utility/Circular: overflow_safe_less and _max and
--                   circular_distance. Utility/Search: the binary searches of algorithm.hpp, over positions of an
--                   array that is a function. Utility/FindCmp: find_cmp of algorithm.hpp, the same way. Utility/Index:
--                   InvalidIndex and InvalidSize. Utility/InnerList: the lists through the nodes of a vector, of
--                   innerlist.hpp. The vector of links is a function from indices, `Links`, and a list is its size and two ends; an operation
--                   takes and returns both. The order of the lists of indices in the theorems is from the back to
--                   the front, along the `next` links. Utility/Queue: the queue of queue.hpp, in a chain of nodes; the
--                   memory is a function from the numbers of the nodes, and what is undefined has no result.
--                   Utility/Queue/Refine: its calls against those of a list; Utility/Queue/Destroy: its destructor.
--
--   Serialization   solid/serialization/binarybasic.hpp and src/binarybasic.cpp: store and load on a fixed
--                   number of bytes, and the cross functions on as few bytes as the value needs. A buffer is a
--                   list of bytes; a null pointer is the result `none` of a store and `null` of a load.
--
--   Mpipc           solid/frame/mpipc. Mpipc/Message: the flags, ids and bundles of mpipcmessage.hpp,
--                   mpipccontext.hpp and src/mpipcutility.hpp. Mpipc/Writer: the state of
--                   src/mpipcmessagewriter.hpp, and enqueue, cancel, cancelOldest, doCancel, fetchRequest and
--                   forEveryMessagesNewerToOlder of src/mpipcmessagewriter.cpp. Its three lists are lists of
--                   Utility/InnerList: the order list has links of its own, the write list and the cache share theirs,
--                   as the two links of a stub. Mpipc/Writer/Send: doFillPacket with
--                   doPrepareMessageForSending and doTryCompleteMessageAfterSerialization; Mpipc/Writer/Write: write.
--                   Mpipc/Writer/Reached: sequences of calls of enqueue, write and cancel.
--                   Mpipc/Reader: doConsumePacket of src/mpipcmessagereader.cpp, Mpipc/Reader/Read: read. The queue of
--                   Utility/Queue is a list there. The reader is given the bytes that its last call left
--                   and more, as the connection does. Mpipc/Transfer: the bytes of a writer, given to a reader.
--                   Mpipc/Packet: PacketHeader of src/mpipcutility.hpp, over the values that a protocol stores, with
--                   the protocol of mpipcprotocol_serialization_v1.hpp as an instance. Mpipc/Protocol: the serializers and
--                   deserializers of mpipcprotocol.hpp, which a protocol implements, are types `S` and `D` of states
--                   with the operations that are called; a serializer does not write more than it is given room for, a
--                   deserializer does not read more than it is given. What doFillPacket relies on to do nothing
--                   undefined is `Measured` of Mpipc/Writer/Send/Measured: a serializer that a message was pushed to is
--                   not done; one that is not done writes something into more room than `slack`, and leaves no more than
--                   that if it is not done then; and the messages and `slack` are no more than
--                   minimumFreePacketDataSize, since the switches between messages are not taken from the free size.
--                   The reference to a message pointer that a
--                   deserializer keeps is given to it with each run.
--                   Mpipc/Pool: ConnectionPoolStub of src/mpipcservice.cpp, the messages of the connections to one recipient,
--                   again over lists of Utility/InnerList: the order list and the cache share their links, the
--                   asynchronous messages have links of their own. Mpipc/Pool/HandOver:
--                   Service::doTryPushMessageToConnection, between a pool and a writer.
--                   Mpipc/Reader/Switches, Ends and Multiplex: how the loop over the switches of a packet ends.
--                   What is undefined in C++ (a null pointer, a read or a write outside a buffer, the front of an empty
--                   queue) is an outcome of its own.
--
--   Frame           solid/frame. Frame/TimeStore: the store of the timers, of timestore.hpp, over any type of times with a
--                   comparison. Frame/Common: UniqueId of common.hpp.
--                   Frame/SharedStore: the objects of sharedstore.hpp, which are shared by counted pointers; the operations
--                   on one stub. Frame/SharedStore/Store: the store, of sharedstore.hpp and src/sharedstore.cpp, with the
--                   signals of the object that it is, and the operations of its users, with Store/Requests; Store/Execute: its event, with
--                   doExecute. The controller and the functions that wait for an object are a record of functions; a
--                   function that is called is given the store and leaves one, as it may call any operation, and what a
--                   controller sees through its Accessor is given to it and left by it in the same way. A step on one
--                   stub is what the code does with the mutex of that stub locked.
--                   Frame/SharedStore/Locks: the orders of such steps, with the numbers of the pointers that are held.
--                   Wake: the orders of the operations and events of a whole store; Indices and Reuse: its free indices.
--
-- Numbers are natural numbers with the wrap-around of their width written out where the code can reach it.
-- A loop of the code that follows links (clear and forEach of an inner list, the destructor of a queue) or halves a range (the binary search) has
-- fuel; the theorems take any fuel greater than the number of the indices or positions. A `size_t` has 64 bits. The
-- loop of doFillPacket takes more rounds: while no byte is written the messages can be turned once each, so its fuel is
-- the product of the bytes and messages with the messages. The loops of write, read and doConsumePacket have as many
-- rounds as bytes, since each writes or takes one at least.
--
-- SOLID_ASSERT is empty unless SOLID_HAS_ASSERT is defined. The definitions are the code without it, also where the
-- source asserts that an error does not come; what is undefined where an asserted pointer is missing is an outcome. The
-- assertion of write, that a packet has less than 0xffff bytes of data, is kept: where it fails, nothing is said of what
-- follows.
--
-- Not modelled: the asynchronous reactors and sockets, the system wrappers, threads and locks, the type erasure of
-- C++ objects and debug output; the connection and the service of mpipc but for the writer, the reader and the pools of
-- messages, since the rest of them are events, timers and notifications of the reactor; the serializer, a stack of
-- callbacks through untyped pointers, which is a parameter here; and the file store of solid/frame, which is input and
-- output.
pub mod Prelude
pub mod Utility
pub mod Serialization
pub mod Mpipc
pub mod Frame
