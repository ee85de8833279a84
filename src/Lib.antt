-- ===== src/Lib.antt =====
-- Verification of the MiniNet experiments: a learning switch, a NAT and a distributed letter count.
--
-- The programs and the files that model them:
--
-- ListHead models nat_stack/include/list.h, of which switch_stack/include/list.h is a copy. A pointer
-- is a number, and the memory holds the fields `next` and `prev` of the node at each address.
-- ListHead/Chain says when a ring holds a list of entries, ListHead/Edit and ListHead/Walk relate the
-- operations and the two loop macros to that list, and ListHead/Frame says what they leave alone.
-- ListHead/Race has an insertion of one thread with a deletion of another in the middle of it.
-- ListHead/Example models nat_stack/example/list_example.c, of which the copy of switch_stack differs
-- in comments.
--
-- The tables of mac.c, nat.c and nat_new_2.c are modelled twice. First on lists: Buckets has the loops
-- over the 256 lists of a hash table. Then on the memory itself: Rings has 256 rings whose nodes are
-- the entries, with the loops and writes that the three files share, and Rings/Stores says when they
-- hold given lists. Switch/Mac/Store, NatStack/Linear/Store and NatStack/Hashed/Store have the
-- operations on the rings, and their child modules relate whole runs of them to the lists. The other
-- models use the lists.
--
-- Hash models hash.h. Packet models ether.h, ip.h, tcp.h and icmp.h of nat_stack/include: a packet is
-- the function that gives each offset its byte, and a field is what a little-endian host loads or
-- stores there. Packet/Checksum models checksum.h and the three checksums that call it, with the
-- wrap-around of `u32` and `u16`.
--
-- Device models what main.c of both stacks does to find and open the interfaces. The answers of
-- `socket`, `ioctl` and `bind` are the record `Os`, and an `int` stands for its 32 bits.
--
-- Switch models switch_stack: Switch the structures and packet.c, Switch/Mac the forwarding table of
-- mac.c, Switch/Mac/Dump its printing, Switch/Start the start in main.c, Switch/Main `handle_packet`,
-- `ustack_run` and the thread of `main`, Switch/Main/Run packets and rounds of the sweeping thread in
-- any order, each as a whole. What `sendto` is given is a list of `Sent`.
--
-- NatStack models nat_stack: NatStack the structures of base.h and nat.h, NatStack/Ports the port
-- pool, NatStack/Rewrite the stores into a packet, NatStack/Expiry the loops of `nat_timeout`,
-- NatStack/Linear nat.c, which the Makefile builds, NatStack/Linear/Exhausted its empty pool,
-- NatStack/Linear/Portless the mappings that got no port, NatStack/Hashed nat_new_2.c, the version
-- with hashed lists and two entries for each flow, NatStack/Hashed/Idle/Runs the steps of a run of
-- that version, NatStack/Start the start in main.c, and NatStack/Main the dispatch, the poll loop and
-- `main` over nat.c; a frame there has the bytes that `malloc` gave to its copy, and an access behind
-- them ends the run as a dereference of NULL does. Calls into the IP stack's library, of which only
-- the headers are in the repository, and `free` are recorded as values of `Action`.
--
-- WordCount models socket-exp/socket-example: the split of the file in server.c, `calculate` of
-- client.c, and the sum of the tables. `behind` is the memory behind the client's buffer, which
-- `strlen` reads when the buffer is full. WordCount/Threads has `main` and the threads of server.c as
-- a step relation, WordCount/Messages the task as the server sends it and the client receives it, and
-- WordCount/Answers the table that comes back, up to the sum of all answers. A `long` stands for its
-- 64 bits and an `int` for its 32. WordCount/Start has `main` of both programs with the answers of
-- `socket`, `bind`, `accept` and `connect`.
--
-- ThreadExample models nat_stack/example/pthread_example.c and its two copies, which are the same
-- text: two threads that print under a lock, as a step relation.
--
-- Stateful code takes its state and returns the new one. The time, the addresses that `malloc`
-- returns, `inet_addr`, and the answers of `socket`, `ioctl`, `bind`, `getifaddrs`, `poll` and
-- `recvfrom` are arguments. `htons`, `ntohs`, `htonl`, `ntohl`, `memcmp`, `strcmp` and `strstr` have
-- their documented meaning. A dereference of NULL is `none`, or a result of its own.
--
-- Fuel: the loops of list.h run on fuel, and more fuel than entries is enough for a ring. The scan of
-- the port pool and the loops over the 256 lists recurse on the number of rounds left. In a run on the
-- memory, more fuel than insertions is enough for every loop. The poll loop recurses on the list of
-- the calls of `poll` before the one that fails, and the sweeping thread on the list of its rounds;
-- both may be of any length.
--
-- Not modelled: printing and logging but for the lines of the dump and the example, mutexes of the
-- switch and the NAT and the interleaving of threads inside a handler but for the one of
-- ListHead/Race, the sweeping thread beside `main` of the switch as a whole, failure of `getifaddrs`
-- and of `malloc` in the tables and at the start, the signal that `nat_table_destroy` sends to the
-- thread of `nat_timeout`, what libipstack reads of a frame, the block that
-- `nat_get_mapping_from_packet` of nat.c allocates and nothing uses, and wrap-around of the `int`
-- counts, which a file of 2 ^ 31 bytes could reach. tcp_hash.h includes files that are not in the
-- repository. The Mininet topologies and the scripts are left aside.
pub mod Base
pub mod Hash
pub mod ListHead
pub mod Device
pub mod Packet
pub mod ThreadExample
pub mod Buckets
pub mod Rings
pub mod Switch
pub mod NatStack
pub mod WordCount
pub mod Tests
