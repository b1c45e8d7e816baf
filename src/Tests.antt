-- ===== src/Tests.antt =====
-- Tests of the model, and each property at a concrete input.
mod Samples
mod Migration
mod Service
mod Gate
mod Documents
mod Pump
mod Sizes
mod Frozen
mod Rehearsals
mod Relays
mod Gates
