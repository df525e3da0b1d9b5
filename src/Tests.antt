-- ===== src/Tests.antt =====
-- Runs of the theorems on concrete frames, connections and messages.
mod Data
mod Frames
mod Exchanges
mod Transports
mod Notices
mod Desktops
mod Hosts
