-- ===== src/Db.antt =====
-- libs/holahost-db: the storage contract that the services share.
pub mod Retry

-- holahost_db/exceptions.py: the database cannot be reached; a conflict rolled the transaction back;
-- a constraint or a policy was violated.
pub data StorageError : Type 0 where
  storage_unavailable concurrent_update integrity : StorageError
