-- ===== src/CloudProvider.antt =====
-- pkg/cloudprovider/cloudprovider.go: what Karpenter calls. Conversion makes a NodeClaim of a machine,
-- Launch has the operations, Collection puts them under the garbage collector.
pub mod Conversion
pub mod Identity
pub mod Launch
pub mod Collection
