-- ===== src/Lib.antt =====
-- epyx is a peer-to-peer library: nodes that are reached through relays (N2NP) keep a distributed hash
-- table, and speak to each other in packets of a text protocol (GTT). These modules model the parser
-- of the packets, the relays and the nodes that exchange them, the routing table and the messages of
-- the hash table with the actors that run its operations, and the parts of the core and of the
-- network layer that these stand on.
--
-- The parts and their files (the sources are named by their paths in the repository):
--   Base      what all modules share: lists and strings of bytes, tests on numbers, integers (Int), the
--             bitwise exclusive or (Bits), std::map (Dict), three-way comparison (Compare)
--   Core      src/core/string.cpp (Text; <ctype.h> is Ctype), src/core/timeout.cpp (Timeout),
--             src/core/atom/map-detail.h (AtomMap), src/core/blocking-queue-detail.h
--             (BlockingQueue), src/core/actor-manager.cpp and src/core/actor.cpp (ActorManager)
--   Net       src/net/ipaddress.cpp and src/net/sockaddress.cpp (Address), src/net/uri.cpp (Uri)
--   Parser    src/parser/lineparser.cpp (Line), gttpacket.cpp (Packet), gttparser.cpp (Gtt, with the
--             methods for one line in Gtt/Syntax) and httpparser.cpp (Http)
--   N2np      src/n2np/nodeid.cpp (NodeId; as keys of a map NodeId/Key), packet.cpp (Packet), the loop
--             of `eat` in node.cpp and relaysocket.cpp (Stream), relay.cpp and relaysocket.cpp
--             (Relay), node.cpp (Node, with what it receives in Node/Treat); Bootstrap is about a
--             node and its relay
--   Dht       src/dht/id.cpp (Id), kbucket.cpp (KBucket, with peer.h), packet.cpp (Packet, with
--             peer.cpp, and Packet/ToGtt), process-actor.cpp with the registry of internal-node.cpp
--             (Process), setter-actor.cpp, getter-actor.cpp and finder-actor.cpp (Process/Setter,
--             Process/Getter, Process/Finder), storage.cpp, static-actors.cpp and the dispatch of
--             internal-node.cpp (Node), node.cpp (Public), replicater-actor.cpp (Replicater)
--
-- State is passed explicitly: a method of a class is a function from the record of its fields to
-- the new record and the result. A lock that a method holds from its start to its end makes it one
-- step, and the calls of several threads are a sequence of steps; in the blocking queue a step is
-- what a thread does between two accesses to what is shared, and in the manager of actors what a
-- worker does under one mutex: a worker tests an actor in one step, and begins and ends the call of
-- it in two others. Messages to other actors, calls of the user, bytes sent and timers are a list
-- of effects. Exceptions are values; undefined behaviour that the code can reach (a null pointer,
-- the top of an empty queue, a missing return value) is a value too, so that a theorem can say
-- where it is reached and where not.
--
-- How the parts meet: `getPacket` of Parser/Gtt works on the buffer of Parser/Line and is given its two
-- virtual methods as a record, which Parser/Gtt/Syntax and Parser/Http fill. The loop of N2np/Stream
-- calls it for a node and for a connection of a relay, which give it what is done with a packet;
-- N2np/Packet makes a packet of the GTT packet and back, with the names of N2np/NodeId and
-- Net/Address. A node hands the data of a packet to a module: Dht/Public is one, which reads a GTT
-- packet of its own in it, has Dht/Packet make a message of that and back, with the texts of Dht/Id,
-- and gives it to Dht/Node. Dht/Node takes the sender into the table of Dht/KBucket and hands
-- the message to a static actor, or by its connection id to the process actor that Dht/Process has
-- registered.
--
-- Numbers are natural numbers; the conversions to `int`, `unsigned int`, `long`, `size_t`, `unsigned
-- short` and `uint8_t` are written out. Times are natural numbers. The connection ids, the numbers
-- of packets and the clock are not taken to overflow their 64 bits, nor the ids of actors their 32.
--
-- Fuel: `run` of Parser/Gtt, the loop of `getPacket`, has fuel, which is the length of the buffer and
-- one: each turn but the last takes at least one byte off the buffer. `feed` of N2np/Stream has the
-- length of the buffer and two: each packet takes a byte, but one that waited for its end.
-- `read_fields` of N2np/Node/Treat has the length of the data and its end of line, and one: each line
-- takes a byte. `decimal_onto` of Core/Text, which prints a number, has the number and one. All else
-- is structural recursion.
--
-- Code that is not in the repository, or that is the user's, is a parameter: what `inet_pton` and
-- `inet_ntop` make of the text of an address (`simplify`; of a text that `inet_pton` cannot read,
-- where the code reads memory that was never set, it is what a run makes), the address of the other
-- end of a socket (`address`), the hash of a key (`for_string`), the random numbers of `randomize`,
-- the time, the memory of a new packet (`raw`), how the call of a module ends (`answer`) and what
-- the callback of the user does to the peers (`edit`). So are the heaps of the standard library
-- that the search keeps (`HeapOps`), whose order but for the first is left open;
-- Process/Finder/Heap has their laws.
--
-- Not modelled: sockets, how the thread pool starts and stops workers, the timeouts of the
-- actor manager, waits on condition variables other than the queue's, logging,
-- cryptography, NAT traversal, the demos and the copies of other projects (include/tinyxml,
-- contrib/webm).
pub mod Base
pub mod Core
pub mod Net
pub mod Parser
pub mod N2np
pub mod Dht
