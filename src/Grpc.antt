-- ===== src/Grpc.antt =====
-- cnf/grpc/server.py: the servicers of a node, for the election object of its agent. What the
-- generated messages check of their fields is left out.
pub mod Control
pub mod Peer
pub mod Reports
pub mod Sync
