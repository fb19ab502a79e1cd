-- ===== src/BlobStore.antt =====
-- src/blobstore.rs: pointer files, and the store of large contents by their hash.
pub mod Pointer
pub mod RoundTrip
pub mod Store
pub mod Addressing
