-- ===== src/Webui.antt =====
-- webui/wasm/src: the browser side.
pub mod Throttle
pub mod Resize
pub mod Moq
pub mod Opus
pub mod Log
