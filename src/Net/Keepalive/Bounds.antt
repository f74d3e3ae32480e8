-- ===== src/Net/Keepalive/Bounds.antt =====
-- rendezvous.rs: the refresh interval, compared with the time to live.
