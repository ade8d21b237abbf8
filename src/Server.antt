-- ===== src/Server.antt =====
-- server/src: what the server does with a client's input and with the state of the link.
pub mod Bitrate
pub mod Touch
pub mod Pointer
pub mod Gamepad
pub mod Eis
pub mod Keyboard
pub mod InputCoalesce
pub mod Flood
pub mod Registry
pub mod Ipc
pub mod Auth
pub mod Publish
pub mod Lock
pub mod Transport
pub mod Names
pub mod Picking
pub mod ClientLogs
pub mod Config
