-- ===== src/Codes.antt =====
-- The enumerations of src/dns with their numbers on the wire.
pub mod OpCode
pub mod ResponseCode
pub mod RecordType
pub mod RecordClass
pub mod TypeNames
