-- ===== src/Storage.antt =====
-- src/storage/yappo_storage_v2.h and .c: file headers, descriptors, and the manifest in memory.
pub mod Header
pub mod Slots
pub mod Descriptor
pub mod Manifest
pub mod IdList
