-- ===== src/Export.antt =====
-- src/yafcore.c: flow records and their templates.
pub mod Spec
pub mod Layout
pub mod Elements
pub mod Record
pub mod Write
pub mod Session
pub mod Template
pub mod Reversed
