-- ===== src/Tests.antt =====
-- The theorems at concrete inputs, and runs of the definitions.
mod Terms
mod Machines
mod Texts
mod Threads
mod Parse
mod Bytes
mod Grammars
mod Documents
