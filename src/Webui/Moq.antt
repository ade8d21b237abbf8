-- ===== src/Webui/Moq.antt =====
-- webui/wasm/src/moq.rs: the browser's streams under the poll traits of moq_net, and the queues of
-- the page. What a promise of the browser gives when it is polled is an argument.
pub mod Recv
pub mod Send
pub mod Control
