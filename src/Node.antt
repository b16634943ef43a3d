-- ===== src/Node.antt =====
-- The package node: New, Close, the routing table filter and the topics of a Node.
pub mod Filter
pub mod Topics
pub mod Process
