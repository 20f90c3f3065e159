-- ===== src/Process.antt =====
-- src/qofltrace.c, src/yaflush.c and src/yafout.c: the way of a packet from the trace through the ring
-- into the flow table, and of the flows to the output.
pub mod Output
pub mod Flush
pub mod Input
pub mod Main
pub mod Whole
