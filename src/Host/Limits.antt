-- ===== src/Host/Limits.antt =====
-- host/limits.go: the numbers that go to the resource manager and the connection manager.
pub mod Water
use go_p2p_forge.Prelude.{
  List, Option, [], if◌then◌else◌, leb, leb_ℤ, ltb, max_int64, none, pos, pos_part, some, wrap64, ℕ,
  ℤ, ◌*◌, ◌-◌, ◌/◌, ◌∷◌,
}
use go_p2p_forge.Host.{HostConfig}

unfoldable pub default_yamux_max_incoming_streams : ℕ
default_yamux_max_incoming_streams = 512

abbrev pub streams_per_conn : ℕ
streams_per_conn = 8

abbrev pub default_conn_manager_grace_period : ℤ
default_conn_manager_grace_period = pos 30000000000

-- The arguments of connmgr.NewConnManager.
pub record ConnManager : Type 0 where
  pub low : ℤ
  pub high : ℤ
  pub grace : ℤ

-- connectionLimitOptions with `maxConns` above zero.
unfoldable pub conn_manager : ℕ → ℤ → ConnManager
conn_manager n grace =
    let high = if leb (n - n / 10) 0 then n else n - n / 10 in
    let low = if leb (n - n / 5) 0 then high else n - n / 5 in
    record {
      low = pos low;
      high = pos high;
      grace = if leb_ℤ grace (pos 0) then default_conn_manager_grace_period else grace;
    }

-- No connection manager option where max_connections is not positive.
unfoldable pub conn_manager_option : HostConfig → Option ConnManager
unfolding conn_manager
conn_manager_option cfg =
    if leb_ℤ cfg.max_connections (pos 0)
    then none
    else some (conn_manager (pos_part cfg.max_connections) cfg.conn_manager_grace_period)

-- rcmgr.ResourceLimits
pub record ResourceLimits : Type 0 where
  pub conns : ℤ
  pub conns_inbound : ℤ
  pub conns_outbound : ℤ
  pub streams : ℤ
  pub streams_inbound : ℤ
  pub streams_outbound : ℤ
  pub fd : ℤ

-- The limits of `n` connections; the products are ints.
unfoldable pub limits_of : ℕ → ResourceLimits
unfolding wrap64
limits_of n = record {
  conns = pos n;
  conns_inbound = pos n;
  conns_outbound = pos n;
  streams = wrap64 (pos (n * streams_per_conn * 2));
  streams_inbound = wrap64 (pos (n * streams_per_conn));
  streams_outbound = wrap64 (pos (n * streams_per_conn));
  fd = pos n;
}

abbrev pub transient_conns : ℕ → ℕ
transient_conns n = if leb 64 (n / 4) then n / 4 else 64

-- The partial limits of newResourceManager, system and transient; none leaves the scaled defaults.
unfoldable pub partial_limits : HostConfig → Option (ResourceLimits × ResourceLimits)
unfolding limits_of
partial_limits cfg =
    if leb_ℤ cfg.max_connections (pos 0)
    then none
    else some (
      limits_of (pos_part cfg.max_connections),
      limits_of (transient_conns (pos_part cfg.max_connections)),
    )

-- saturatingMul: `b` is positive, and so is `a` where it is called.
unfoldable pub saturating_mul : ℕ → ℕ → ℤ
unfolding wrap64
saturating_mul a b = if ltb (max_int64 / b) a then pos max_int64 else wrap64 (pos (a * b))

-- rcmgr.ConnLimitPerSubnet
pub record SubnetLimit : Type 0 where
  pub prefix_length : ℕ
  pub conn_count : ℤ

-- perAddressOptions: the limits for IPv4 and for IPv6.
unfoldable pub per_address_options : ℤ → List SubnetLimit × List SubnetLimit
unfolding saturating_mul
per_address_options per_ip =
    let capacity = if leb_ℤ per_ip (pos 0) then max_int64 else pos_part per_ip in
    (
      record { prefix_length = 32; conn_count = pos capacity } ∷ [],
      record { prefix_length = 56; conn_count = pos capacity }
          ∷ record { prefix_length = 48; conn_count = saturating_mul capacity 8 }
          ∷ [],
    )
