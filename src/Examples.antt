-- ===== src/Examples.antt =====
-- Runs on concrete inputs: a small machine, and the theorems at it.
mod Lexing
mod Machine
mod Entries
mod Machines
mod Protocols
mod Selections
mod Sessions
mod Stacks
mod Tables
