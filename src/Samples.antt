-- ===== src/Samples.antt =====
-- Concrete inputs: a receipt format for the store, and the theorems applied to documents, files,
-- configurations and histories.
mod Packing
mod TagPacking
mod CasePacking
mod Settings
mod Documents
mod Receipts
mod Sequences
mod Declarations
mod Routes
mod Configs
mod Resolutions
mod Adaptives
mod Tasks
