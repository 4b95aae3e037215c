-- ===== src/Cam.antt =====
-- Namespace `cam`: the credential asset mapping (lib/src/cam_*.cc, lib/include/cam_*.h).
pub mod Error
pub mod Mapping
pub mod Storage
pub mod Server
pub mod Accessor
