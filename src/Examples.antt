-- ===== src/Examples.antt =====
-- Concrete runs of the models in the other files, one module for each group of them.
mod Flags
mod Ids
mod Chains
mod Nodes
mod Server
mod Election
mod Secrets
mod Routes
mod Placing
mod Writing
mod Building
mod Tls
mod Obtaining
