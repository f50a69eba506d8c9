-- ===== src/Lib.antt =====
-- Verification of jocko, a Kafka broker in Go that keeps the state of its cluster in Raft.
--
-- The parts and how they meet. Requests and responses travel in Kafka's wire format, which
-- protocol/ encodes and decodes. What the cluster knows of its nodes, topics, partitions and
-- groups is a store in memory that jocko/fsm changes, one entry of the Raft log after the other.
-- The records of a partition are in a log on disk, split into segments, in commitlog/.
--
-- Protocol (protocol/). A Go method that returns an error comes to an Outcome: a value, an error,
-- or a panic, which the code raises by indexing past a slice. Protocol/Binary has the big-endian
-- integers of encoding/binary. Protocol/Encoder models protocol/encoder.go: a PutOp is a call of
-- a method of PacketEncoder, len_put and byte_put are the methods of LenEncoder and of
-- ByteEncoder, and `encode` is Encode, which runs the two over the same calls. Its children hold
-- a writer with no buffer and no lengths, which is the specification. Protocol/Decoder models
-- protocol/decoder.go: a method takes a ByteDecoder to its outcome and the decoder that it
-- leaves, and its children tell what a method reads, where the offset ends and which methods
-- panic. size_field.go and crc_field.go are the two kinds of pushed fields. Protocol/Codec joins
-- the two for a round trip: `transmit` is Encode and then Decode. Protocol/Fields has what the
-- messages share, such as times in milliseconds, and Protocol/Message has a module for each group
-- of messages, with a function encode_M and a function decode_M for the methods Encode and Decode
-- of a message M, and functions of the same form for the elements of its arrays, which are the
-- bodies of their loops. A slice of the code that is nil and one that is empty are the same list.
-- A child RoundTrip says which fields are in range.
--
-- Fsm (jocko/fsm and jocko/structs). Fsm/Structs has the rows of structs.go and Fsm/TopicConfig
-- the settings of topic_config.go. Fsm/Tables has the tables and Fsm/Store the operations of the
-- Store of fsm.go: a transaction is a function to Option, where none is an error, and `commit`
-- keeps the store that was there when it fails. Fsm/Apply has FSM.Apply of fsm.go, the handlers
-- of commands.go, and the encoding of a log entry. Fsm/Spec is the specification: maps from keys
-- to rows, with no transactions and no tables.
--
-- CommitLog (commitlog/). CommitLog/Index is index.go on the bytes of the mapped file,
-- CommitLog/Segment the parts of segment.go that an append uses, CommitLog/DeleteCleaner is
-- delete_cleaner.go, CommitLog/Log has New on an empty directory, Append, split and Truncate of
-- commitlog.go, and CommitLog/Find findSegment of util.go. An int64 of the log is its bits, a
-- number whose sums wrap at 2 ^ 64 (CommitLog/Int64). The operating system is a record of
-- functions, Disk, that tells which calls fail. An append that fails keeps what it changed
-- before.
--
-- Broker (jocko/broker.go, jocko/leader.go, jocko/replica_lookup.go). A handler takes a request
-- and the state of the broker to its response and the next state. Broker/Raft is raftApply: the
-- results of hashicorp/raft are a sequence, and an entry that is applied changes the store as
-- Fsm/Apply does. Broker/Groups has handleJoinGroup, handleLeaveGroup, handleSyncGroup,
-- handleHeartbeat and handleListGroups, with what a join makes of a group in Broker/Membership.
-- GetGroup returns a pointer into the database, so the model changes the store where the code
-- assigns through it (`touch`). Broker/Placement is buildPartitions, where the factor less one
-- wraps at 16 bits, Broker/Replicas is handleLeaderAndISR with startReplica, becomeLeader,
-- becomeFollower and the lookup of replicas, and Broker/Topics puts them together in createTopic.
-- Broker/Topics/Handlers has handleCreateTopic, handleDeleteTopics and withTimeout. A function
-- that withTimeout does not wait for stays in the background of the broker; it runs whole, before
-- some later round of the loop of a handler that an argument names, and if the channel that it
-- sends on is closed by then the broker panics. Broker/Errors has the codes of protocol/error.go.
--
-- Parameters. The checksum of hash/crc32 is a function on bytes. hashicorp/go-memdb is the
-- interface MemTable: first, insert, delete, an assignment through a pointer that First returned,
-- and the laws that its documentation gives them. strings.ToLower is a field of Database, and
-- msgpack (ugorji/go) is the interface Codec, with an encoding and a decoding for each struct of
-- structs.go, of which a theorem asks that the decoding reads what the encoding of the same
-- struct wrote. The type byte and the table from it to a handler are of the model. Disk is
-- described above. The logs and the network of a broker are the interface Local, and what
-- rand.Intn, uuid, timers and the iteration of maps return are arguments. Runs/ gives each of
-- them as a function and runs the code on them.
--
-- Bounds. Every loop is structural recursion but the binary search of CommitLog/Find, whose fuel
-- is the number of segments; each step makes its range smaller, and its theorem shows that it
-- ends. An int8 to int64 on the wire is an integer whose bytes wrap at its width; the offsets of
-- the decoder and lengths of slices are natural numbers, since Go keeps them below the length of
-- a slice. The indexes of Raft are natural numbers, which Raft hands out from 1 upwards.
--
-- Not modelled: the handlers of produce, fetch, offsets, metadata, coordinators and
-- DescribeGroups, and the start and the end of a broker (jocko/broker.go), the leader's duties
-- but raftApply and the replicator (leader.go, replicator.go), the interleaving of requests,
-- which Run takes one by one, a function in the background that runs at the same time as another,
-- sockets (server.go, conn.go, dialer.go), Serf, snapshots and Restore of the store, whose
-- persisters stand nowhere in the repository; in protocol/ the messages whose Decode does not
-- read what Encode writes (ApiVersionsResponse, JoinGroupRequest, HeartbeatResponse,
-- OffsetCommit, OffsetFetchResponse, StopReplicaResponse, OffsetsResponse, and the responses to
-- DeleteTopics and AlterConfigs, which drop errors) or that hold a map (CreateTopicRequests,
-- DescribeGroupsResponse), and the framing of requests and responses; in commitlog/ the compact
-- cleaner, the readers and the reading of a log that is on disk already, and tracing, logs and
-- locks. Every operation of the store holds its lock or its transaction throughout, so that one
-- operation is one step.
pub mod Common
pub mod Protocol
pub mod Fsm
pub mod Broker
pub mod CommitLog
pub mod Runs
