-- ===== src/Shared.antt =====
-- shared/src: the wire protocol and the policies that the server and the web client share.
pub mod Error
pub mod Codec
pub mod LogLevel
pub mod TrackNames
pub mod ServerDatagram
pub mod ClientDatagram
pub mod Mux
pub mod Throttle
pub mod WakeQueue
