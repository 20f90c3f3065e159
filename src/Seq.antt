-- ===== src/Seq.antt =====
-- src/qofseq.c and include/qof/qofseq.h: the sequence numbers of one direction of a TCP connection,
-- with the stack of gaps that out-of-order segments leave. The stack itself is in Seq/Gap.
pub mod Gap
pub mod Fill
pub mod Once
pub mod Advance
pub mod Next
pub mod State
