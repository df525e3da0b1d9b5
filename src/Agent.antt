-- ===== src/Agent.antt =====
-- The upstream side, openssh/agent.go: one exchange with the OpenSSH agent, the session that keeps
-- a connection to it, and the one-shot query.
pub mod Exchange
pub mod Pipe
pub mod Session
pub mod Listing
