-- ===== src/PickQueue.antt =====
-- src/picq.c: the pickable queue, a doubly linked list of nodes that hold their own links. Nodes are
-- addresses in a heap, and 0 is the null pointer; PickQueue/Spec has the queue as a list.
pub mod Spec
pub mod Heap
pub mod Links
pub mod Refine
pub mod Enter
pub mod Members
