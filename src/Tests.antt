-- ===== src/Tests.antt =====
-- Tests and witnesses: runs of the definitions and of the theorems at concrete inputs.
mod Trees
mod Sets
mod Commands
mod Elections
mod Fast
mod FastRun
mod Curp
mod Swift
