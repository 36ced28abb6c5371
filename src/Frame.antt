-- ===== src/Frame.antt =====
-- frame/: the actors of a node, and the node that leads them.
pub mod Controller
pub mod Zoo
pub mod Worker
pub mod Server
pub mod Requests
pub mod Actor
mod Tests
