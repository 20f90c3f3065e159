-- ===== src/Flow.antt =====
-- src/yaftab.c: the flow table. Flow/Key has the keys, Flow/Record what is kept of a flow, Flow/Table
-- the table with its two queues, Flow/Update a packet's way into it, and Flow/Flush the export.
pub mod Key
pub mod Record
pub mod Tcp
pub mod Table
pub mod Update
pub mod Allocated
pub mod Index
pub mod Flush
