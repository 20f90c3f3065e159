-- ===== src/Examples.antt =====
-- Runs of the models on concrete inputs.
mod Values
mod Trackers
mod Buffers
mod Packets
mod Flows
mod Maps
mod Export
mod Fragments
mod Configuration
mod Tables
mod Traces
mod Sessions
mod Capture
