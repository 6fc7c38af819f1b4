-- ===== src/Storage/Tests.antt =====
-- The contract of the storage at association lists.
use go_blockchain.Storage.{StorageLaws}
use go_blockchain.Storage.Bolt.{bolt_storage}
use go_blockchain.Storage.Bolt.Refines.{IsHash, bolt_storage-StorageLaws}
use go_blockchain.Storage.Sample.{sample_bbolt, sample_bbolt_laws}

bolt_storage-StorageLaws_example : StorageLaws (bolt_storage sample_bbolt) IsHash
bolt_storage-StorageLaws_example = bolt_storage-StorageLaws sample_bbolt sample_bbolt_laws
