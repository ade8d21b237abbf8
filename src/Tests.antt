-- ===== src/Tests.antt =====
-- The theorems at concrete inputs, and runs of the code on them.
mod Wire
mod Queues
mod Compositor
mod Page
mod Link
mod Session
mod Media
mod Input
mod Streams
