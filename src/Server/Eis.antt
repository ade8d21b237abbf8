-- ===== src/Server/Eis.antt =====
-- server/src/pipewire/eis.rs: the input task of a session, from the bus of its datagrams to the
-- channel of the EIS thread. Its loop is a run over the arms of its `select!`, in the order in which
-- they are taken.
pub mod Task
mod Runs
pub mod Touches
pub mod Keys
pub mod Frame
pub mod Order
pub mod Device
