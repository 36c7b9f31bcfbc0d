-- ===== src/Nng/Config.antt =====
-- `SocketConfig` of oysterpack-trust-nng/src/config.rs.
pub mod Bounds
use oysterpack.Prelude.{
  ℕ, zero, suc, ◌+◌, ◌-◌, ◌*◌, ◌/◌, ◌%◌, ◌^◌, ◌≤◌, ◌<◌, ◌≡◌, refl, sym, ap, ◌∙◌, subst, ◌≢◌, ◌↔◌,
  ◌⊎◌, inl, inr, Bool, true, false, not, ◌&&◌, ◌||◌, Option, none, some, List, [], ◌∷◌, ◌++◌, map,
  arith, Result, ok, err, ◌>>=◌, ◌>>◌, map_err, is_ok, >>=-eq-ok, ok-injective, Result-cases,
  Outcome, returns, panics, ltb, leb, if◌then◌else◌, Bool-cases, Option-cases, length, is_empty,
  filter, any, all, All, In, first, flat_map, filter_map, All-map, All-In, All-of_In, List-cases,
  length-append, ◌==◌, Eq, nat_eq, list_eq, nat_beq_iff, list_beq_iff, contains, HashMap, get,
  insert, remove, contains_key, keys, values, get-insert, get-remove, contains_key-get,
  contains_key-is_some, contains_key-of_get, is_some,
}
use oysterpack.Text.{Str, str_len, utf8_width}
use oysterpack.Nng.Types

-- A duration is a number of milliseconds; sizes are not zero.
pub record SocketConfig : Type 0 where
  pub recv_buffer_size : Option ℕ
  pub recv_max_size : Option ℕ
  pub recv_timeout : Option ℕ
  pub send_timeout : Option ℕ
  pub send_buffer_size : Option ℕ
  pub max_ttl : Option ℕ
  pub socket_name : Option Str
  pub tcp_no_delay : Option Bool
  pub tcp_keep_alive : Option Bool

pub data SocketConfigError : Type 0 where
  socket_create_failed : Types.NngError → SocketConfigError
  recv_buffer_size_failed : Types.NngError → SocketConfigError
  send_buffer_size_failed : Types.NngError → SocketConfigError
  recv_max_size_failed : Types.NngError → SocketConfigError
  recv_timeout_failed : Types.NngError → SocketConfigError
  send_timeout_failed : Types.NngError → SocketConfigError
  max_ttl_failed : Types.NngError → SocketConfigError
  socket_name_failed : Types.NngError → SocketConfigError
  tcp_no_delay_failed : Types.NngError → SocketConfigError
  tcp_keep_alive_failed : Types.NngError → SocketConfigError
  reconnect_min_time_failed : Types.NngError → SocketConfigError
  reconnect_max_time_failed : Types.NngError → SocketConfigError
  resend_time_failed : Types.NngError → SocketConfigError

-- `SocketConfig::default()`.
abbrev pub default_config : SocketConfig
default_config = record {
  recv_buffer_size = none;
  recv_max_size = none;
  recv_timeout = none;
  send_timeout = none;
  send_buffer_size = none;
  max_ttl = none;
  socket_name = none;
  tcp_no_delay = none;
  tcp_keep_alive = none;
}

-- `SocketConfig::apply`.
unfoldable pub apply :
    (options : Types.Options)
    → SocketConfig
    → options.State
    → Result options.State SocketConfigError
apply options c socket = do
  socket ←
      Types.set_some options recv_buffer_size_failed Types.SocketOption.recv_buffer_size
        c.recv_buffer_size socket
  socket ←
      Types.set_some options send_buffer_size_failed Types.SocketOption.send_buffer_size
        c.send_buffer_size socket
  socket ←
      Types.set_some options recv_max_size_failed Types.SocketOption.recv_max_size c.recv_max_size
        socket
  socket ←
      Types.set_or options recv_timeout_failed (Types.SocketOption.recv_timeout c.recv_timeout)
        socket
  socket ←
      Types.set_or options send_timeout_failed (Types.SocketOption.send_timeout c.send_timeout)
        socket
  socket ← Types.set_some options max_ttl_failed Types.SocketOption.max_ttl c.max_ttl socket
  socket ←
      Types.set_some options socket_name_failed Types.SocketOption.socket_name c.socket_name socket
  socket ←
      Types.set_some options tcp_no_delay_failed Types.SocketOption.tcp_no_delay c.tcp_no_delay
        socket
  Types.set_some options tcp_keep_alive_failed Types.SocketOption.tcp_keep_alive c.tcp_keep_alive
      socket

unfoldable pub set_tcp_keep_alive : Bool → SocketConfig → SocketConfig
set_tcp_keep_alive opt c = record c { tcp_keep_alive = some opt }

unfoldable pub set_tcp_no_delay : Bool → SocketConfig → SocketConfig
set_tcp_no_delay opt c = record c { tcp_no_delay = some opt }

-- `MAX_SOCKET_NAME_LEN`.
abbrev pub max_socket_name_len : ℕ
max_socket_name_len = 63

-- `returns (c :: s)`, of a cut of `s`.
cons_cut : ℕ → Outcome Str → Outcome Str
cons_cut c (returns s) = returns (c ∷ s)
cons_cut c panics = panics

-- `&name[..n]`, which panics if byte n is none of the text's ends of characters.
unfoldable pub slice_to : ℕ → Str → Outcome Str
unfolding cons_cut
slice_to n [] = if n == 0 then returns [] else panics
slice_to n (c ∷ s) =
    let rest = slice_to (n - utf8_width c) s in
    if n == 0 then returns [] else if ltb n (utf8_width c) then panics else cons_cut c rest

named : SocketConfig → Outcome Str → Outcome SocketConfig
named c panics = panics
named c (returns name) = returns (record c { socket_name = some name })

unfoldable pub set_socket_name : Str → SocketConfig → Outcome SocketConfig
unfolding slice_to named
set_socket_name name c =
    if ltb max_socket_name_len (str_len name)
    then named c (slice_to 63 name)
    else returns (record c { socket_name = some name })

unfoldable pub set_recv_max_size : ℕ → SocketConfig → SocketConfig
set_recv_max_size size c = record c { recv_max_size = some size }

unfoldable pub set_recv_buffer_size : ℕ → SocketConfig → SocketConfig
set_recv_buffer_size size c = record c { recv_buffer_size = some size }

-- `MAX_SEND_BUFFER_SIZE`.
abbrev pub max_send_buffer_size : ℕ
max_send_buffer_size = 8192

unfoldable pub set_send_buffer_size : ℕ → SocketConfig → SocketConfig
set_send_buffer_size size c = record c {
  send_buffer_size = some (if ltb max_send_buffer_size size then max_send_buffer_size else size);
}

unfoldable pub set_recv_timeout : ℕ → SocketConfig → SocketConfig
set_recv_timeout timeout c = record c { recv_timeout = some timeout }

unfoldable pub set_send_timeout : ℕ → SocketConfig → SocketConfig
set_send_timeout timeout c = record c { send_timeout = some timeout }

unfoldable pub set_max_ttl : ℕ → SocketConfig → SocketConfig
set_max_ttl ttl c = record c { max_ttl = some ttl }
