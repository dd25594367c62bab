-- ===== src/Rpc.antt =====
-- Fish/rpc and source/rpc: serialisation, type signatures, messages and who keeps them.
pub mod SeriBuf
pub mod CppType
pub mod Containers
pub mod Serializer
pub mod Signature
pub mod Protocol
pub mod ProtocolManager
pub mod HeartManager
