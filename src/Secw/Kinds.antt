-- ===== src/Secw/Kinds.antt =====
-- The virtual methods of the classes of documents with few fields, each on the fields that it reads
-- and with the fields that it sets for its result.
pub mod Fields
pub mod Snmpv1
pub mod UserAndPassword
pub mod ExternalCertificate
pub mod InternalCertificate
