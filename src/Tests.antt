-- ===== src/Tests.antt =====
-- Concrete runs: the witnesses of the theorems, on small files and a small network.
mod Inputs
mod Parameters
mod Interfaces
mod Machine
mod Experiments
mod Yaml
mod Phases
mod Servers
mod Runs
