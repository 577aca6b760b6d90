-- ===== src/Marshal/Processes.antt =====
-- Processes and connections: `to_process_status`, `to_process_name`, `to_connection_state`,
-- `to_transport_protocol` and `to_address_family` of src/pwshpy/adapters/native/marshal.py. The
-- constants of the `socket` module are parameters.
use pwshpy.Base.{ℕ, ◌-◌, Bool, ◌&&◌, [], Option, none, some, ◌==◌, length, take, if◌then◌else◌}
use pwshpy.Text.{Text, codes, ends_with, lower}
use pwshpy.Enums.ProcessStatus.{ProcessStatus, unknown, process_status_of}
use pwshpy.Enums.ConnectionState.{ConnectionState, none_state, connection_state_of}
use pwshpy.Enums.TransportProtocol.{TransportProtocol, tcp, udp}
use pwshpy.Enums.AddressFamily.{AddressFamily, ipv4, ipv6, other}
use pwshpy.Marshal.{or_default}

unfoldable pub to_process_status : Option Text → ProcessStatus
to_process_status none = unknown
to_process_status (some raw) = or_default (process_status_of raw) unknown

abbrev pub text_or_empty : Option Text → Text
text_or_empty none = []
text_or_empty (some raw) = raw

unfoldable pub to_process_name : Bool → Option Text → Text
to_process_name strip_exe raw =
    let name = text_or_empty raw in
    if strip_exe && ends_with (codes ".exe") (lower name) then take (length name - 4) name else name

unfoldable pub to_connection_state : Option Text → ConnectionState
to_connection_state none = none_state
to_connection_state (some raw) = or_default (connection_state_of raw) none_state

unfoldable pub to_transport_protocol : ℕ → ℕ → TransportProtocol
to_transport_protocol sock_stream socket_type = if socket_type == sock_stream then tcp else udp

unfoldable pub to_address_family : ℕ → ℕ → ℕ → AddressFamily
to_address_family af_inet af_inet6 family =
    if family == af_inet then ipv4 else if family == af_inet6 then ipv6 else other
