-- ===== src/Decode.antt =====
-- src/decode.c: the packet decoder. Decode/Run has its state and how a read can fail, Decode/Link,
-- Decode/Network, Decode/Transport and Decode/Tunnel the functions of each layer.
pub mod Run
pub mod Safe
pub mod Link
pub mod Network
pub mod Transport
pub mod Tunnel
pub mod Keys
pub mod Keyed
