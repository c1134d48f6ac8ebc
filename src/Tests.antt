-- ===== src/Tests.antt =====
-- Runs of the modelled functions and of the theorems on concrete inputs.
mod Blocks
mod Files
mod Loading
mod Objects
mod Pages
mod Queues
mod System
mod Terminals
mod Threads
