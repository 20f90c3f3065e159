-- ===== src/Lib.antt =====
-- QoF, a flow meter that is decoupled from YAF: the parts that decode packets, assemble fragments, keep
-- flows, measure the dynamics of TCP and write flow records.
--
-- A packet comes in as captured bytes. `yfDecodeToPBuf` (src/decode.c) takes the link, network and
-- transport headers off and fills in a packet buffer. `yfFlowPBuf` (src/yaftab.c) finds the flow of
-- the buffer's key in a hash table, updates it and closes it on a timeout, on FIN or on RST; the open
-- flows stand in an active queue and the closed ones in a close queue, both of src/picq.c.
-- `yfFlowTabFlush` closes what is idle or too much and exports the close queue. A TCP packet also goes
-- through the trackers of sequence numbers and gaps (src/qofseq.c), acknowledgments (src/qofack.c),
-- round-trip time (src/qofrtt.c), receiver window (src/qofrwin.c) and options (src/qofopt.c), which
-- use the running statistics of src/streamstat.c. The ring buffer of src/ring.c and the circular
-- bitmap of src/bitmap.c stand apart.
--
-- Before a packet reaches the flow table it may be delayed or dropped (src/qofdetune.c), and a fragment
-- is kept in a table until its packet is complete (src/yafrag.c). When a flow is written, `yfWriteFlow`
-- (src/yafcore.c) exports it the other way round if the source networks of src/qofifmap.c or the MAC
-- list of src/qofmaclist.c say so, looks up its interfaces in the interface map, and chooses a template
-- by what the record holds.
--
-- Which module models what:
--   Stats             src/streamstat.c: `mean_add`, `lin_smooth_add` and so on for `sstMeanAdd`,
--                     `sstLinSmoothAdd`. An `int` is an integer reduced to 32 bits; a `double` is a
--                     parameter with the operations that the code uses.
--   Serial            `qfWrapCompare`, the order of sequence numbers.
--   Ack, Rtt          `qfAckSegment`, `qfRwinSegment`, `qfOptSegment`; `qfRttSegment`.
--   Seq               src/qofseq.c: Seq/Gap is the gap stack, Seq/State the record `qfSeq_t` and what
--                     is lost or counted, Seq/Fill `qfSeqGapFill`, Seq/Advance `qfSeqSegment`.
--   PickQueue         src/picq.c: Heap on nodes with links, Spec on lists of nodes.
--   Ring, Bitmap      src/ring.c and src/bitmap.c.
--   Packet            the structures of include/qof/decode.h and include/qof/yafcore.h that packets
--                     are decoded into.
--   Decode            src/decode.c: Link, Network, Transport and Tunnel have the functions of each
--                     layer; a read is from a list of captured bytes, and one outside it is a `fault`.
--   Flow              src/yaftab.c: Key has hash, equality and reversal, Record the flow, Tcp
--                     `yfFlowPktTCP`, Table the table with its queues, Update `yfFlowPBuf`, Flush
--                     `yfFlowTabFlush`, Index what ties nodes, key index and queues together.
--                     The GLib hash table is a parameter with its documented laws,
--                     the export of a record is a parameter that may fail.
--   Fragment          src/yafrag.c: the keys, nodes and table; Assemble has `yfFragComplete`,
--                     `yfFragQueuePrune` and `yfDefragPBuf`. The GLib hash table and array sort are a
--                     parameter.
--   IfMap             src/qofifmap.c: maps and network lists, for version 4 on numbers and for version
--                     6 on lists of bytes; an array with its size is a list.
--   MacList, Detune   src/qofmaclist.c, src/qofdetune.c.
--   Export            src/yafcore.c: Spec is the internal template, Layout the record and the check of
--                     the template against it, Elements the choice of elements, Record and Write
--                     `yfWriteFlow`, Session the templates of a session and `yfWriteStatsRec`. The
--                     calls of libfixbuf are parameters, with their documented effect as laws.
--   Yaml              src/qofconfig.c: Value the scalars, Entry the interface map and the lists of
--                     networks and addresses, Features the elements and what they enable, Document
--                     the keys. The results of `yaml_parser_parse` are a list of events, the scans of
--                     the C library a parameter.
--   Process           src/qofltrace.c, src/yaflush.c, src/yafout.c: Input is `qfTraceHandlePacket`, Main
--                     `qfTraceMain`, Flush what takes packets from the ring into the flow table and
--                     flows to the output, Output its opening and closing, Whole all of them together.
--   Examples          the theorems at concrete inputs, and test runs.
--
-- Words are numbers with their wrap-around written out (Base/Word). A loop with no bound of its own
-- runs on fuel: `decode_l2_shim`, `tcp_options`, `gre_sre` and `ipv6_loop` take as fuel a bound on the
-- headers, and a fuel above the capture length is enough for layer 2 and TCP; `fill_loop` takes two
-- rounds, which are enough; `close_while` takes the length of the active queue.
--
-- `converge` takes the size of the map, and the loops of `frag_queue_prune` the length of the queue;
-- `parse_document` and the loops in it take one more than the number of events, which is enough;
-- `drain` takes the count of the ring, and `trace_main` one more than the packets of the trace.
--
-- Not modelled: the reader and the printing of flows in src/yafcore.c, the set-up of contexts in
-- src/qofconfig.c, options, logging and statistics (src/qof.c, src/yafstat.c), and the opening of a
-- trace, which mostly call libfixbuf, libtrace and GLib; the functions of src/ring.c that wait, which
-- are compiled only with threads; the library copied under airframe.
pub mod Base
pub mod Stats
pub mod Serial
pub mod Ack
pub mod Rtt
pub mod Seq
pub mod PickQueue
pub mod Ring
pub mod Bitmap
pub mod Packet
pub mod Decode
pub mod Flow
pub mod IfMap
pub mod Fragment
pub mod MacList
pub mod Detune
pub mod Export
pub mod Yaml
pub mod Process
pub mod Examples
