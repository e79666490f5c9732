-- ===== src/Tests.antt =====
-- Runs of the model at concrete data, and the theorems at data where their hypotheses hold.
mod Blank
mod Floats
mod OneSlot
mod Refreshing
mod Samples
mod Routing
mod Requests
mod Mappings
mod Reconciling
mod Commands
mod Writing
mod Cluster
mod Ordering
mod OneFork
mod Expiring
mod Owned
mod Starting
mod OneKind
mod Copying
mod Keeping
mod Originals
mod Repeated
mod Reconciled
mod Settled
mod DeepCopying
