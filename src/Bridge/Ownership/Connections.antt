-- ===== src/Bridge/Ownership/Connections.antt =====
-- pkg/bridge/ownership.go: the flags of a connection.
use foxbridge.Common.{ℕ, Bool, true, false, not, ◌&&◌, Option, none, some, nat_key, string_key}
use foxbridge.Dict.{Dict, get, put}
use foxbridge.Bridge.Ownership.{ConnectionState, Registry}

abbrev pub zero_state : ConnectionState
zero_state = record { closed = false; discover = false; auto_attach = false }

abbrev with_state : Option ConnectionState → Registry → ℕ → Registry
with_state none r conn = record r { connections = put r.connections conn zero_state }
with_state (some state) r conn = r

-- The state of a connection that is not nil is made on first use.
unfoldable pub state_locked : Registry → ℕ → Registry
state_locked r conn = with_state (get r.connections conn) r conn

unfoldable pub state : Registry → Option ℕ → Registry
state r none = r
state r (some conn) = state_locked r conn

abbrev flags_of : Option ConnectionState → ConnectionState
flags_of none = zero_state
flags_of (some s) = s

-- r.stateLocked(conn).flag = enabled
write_state : Registry → ℕ → (ConnectionState → ConnectionState) → Registry
unfolding state_locked
write_state r conn f =
    let r' = state_locked r conn in
    record r' { connections = put r'.connections conn (f (flags_of (get r'.connections conn))) }

unfoldable pub set_discover : Registry → Option ℕ → Bool → Registry
unfolding write_state
set_discover r none enabled = r
set_discover r (some conn) enabled = write_state r conn (λ s. record s { discover = enabled })

unfoldable pub set_auto_attach : Registry → Option ℕ → Bool → Registry
unfolding write_state
set_auto_attach r none enabled = r
set_auto_attach r (some conn) enabled = write_state r conn (λ s. record s { auto_attach = enabled })

unfoldable pub discover_enabled : Registry → Option ℕ → Bool
discover_enabled r none = true
discover_enabled r (some conn) = elim (get r.connections conn) [
  | none ↦ false
  | some s ↦ not s.closed && s.discover
]

unfoldable pub auto_attach_enabled : Registry → Option ℕ → Bool
auto_attach_enabled r none = false
auto_attach_enabled r (some conn) = elim (get r.connections conn) [
  | none ↦ false
  | some s ↦ not s.closed && s.auto_attach
]

-- nil counts as closed here, and so does a connection with no state.
abbrev pub closed_in : Dict ℕ ConnectionState → Option ℕ → Bool
closed_in d none = true
closed_in d (some conn) = elim (get d conn) [ none ↦ true | some s ↦ s.closed ]

unfoldable pub connection_closed_locked : Registry → Option ℕ → Bool
connection_closed_locked r conn = closed_in r.connections conn

unfoldable pub connection_closed : Registry → Option ℕ → Bool
unfolding connection_closed_locked
connection_closed r none = false
connection_closed r (some conn) = connection_closed_locked r (some conn)
