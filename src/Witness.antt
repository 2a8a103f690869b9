-- ===== src/Witness.antt =====
-- The theorems applied: a small operating system that keeps their hypotheses, and concrete inputs.
mod Kernel
mod Toy
mod Host
mod Streams
mod Requests
mod Posts
