-- ===== src/Tests.antt =====
-- Concrete instances and runs of the modelled code.
mod Machine
mod Host
mod Arrays
mod Pools
mod Tables
mod Recycled
mod Sessions
mod Systems
mod Objects
mod Epochs
