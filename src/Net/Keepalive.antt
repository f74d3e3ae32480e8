-- ===== src/Net/Keepalive.antt =====
-- crates/peerline-net/src/rendezvous.rs: how often a registration is refreshed. A duration is its
-- nanoseconds.
pub mod Bounds
use peerline.Base.{ℕ, ◌-◌, ◌*◌, ◌/◌, if◌then◌else◌, leb}
use Prim.Native.Nat.{min, max}
use peerline.Rendezvous.Model.{registration_tolerance_secs, default_max_ttl_secs}

abbrev pub nanos : ℕ
nanos = 1000000000

abbrev pub as_secs : ℕ → ℕ
as_secs duration = duration / nanos

abbrev pub ttl_secs : ℕ → ℕ
ttl_secs ttl = max (as_secs (min ttl (default_max_ttl_secs * nanos))) 1

abbrev pub tolerance_secs : ℕ → ℕ
tolerance_secs secs = if leb secs 1 then 0 else min (max (secs / 2) 1) registration_tolerance_secs

unfoldable pub normalize_registration_keepalive : ℕ → ℕ → ℕ
normalize_registration_keepalive ttl requested =
    let secs = ttl_secs ttl in
    let latest = max (secs - tolerance_secs secs) 1 in
    min (max (as_secs requested) 1) latest * nanos
