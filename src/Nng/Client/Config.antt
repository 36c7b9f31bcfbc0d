-- ===== src/Nng/Client/Config.antt =====
-- `SocketConfig` and `DialerConfig` of oysterpack-trust-nng/src/reqrep/client.rs. A duration is a
-- number of milliseconds, an address the text of its URL.
use oysterpack.Prelude.{
  ℕ, Bool, true, Option, none, some, Result, ok, ◌>>=◌, map_err, nat_eq, list_eq,
}
use oysterpack.Text.{Str}
use oysterpack.Nng.Types.{NngError, Endpoint, Options, SocketOption, set_some, set_or}
use oysterpack.Nng.Config
use oysterpack.Nng.Config.{
  apply, SocketConfigError, socket_create_failed, reconnect_min_time_failed,
  reconnect_max_time_failed, resend_time_failed,
}

pub record SocketConfig : Type 0 where
  pub reconnect_min_time : Option ℕ
  pub reconnect_max_time : Option ℕ
  pub resend_time : Option ℕ
  pub socket_config : Option Config.SocketConfig

module _ (options : Options) where
  -- The settings shared with servers, if there are any.
  unfoldable pub apply_shared :
      Option Config.SocketConfig → options.State → Result options.State SocketConfigError
  apply_shared none socket = ok socket
  apply_shared (some settings) socket = apply options settings socket

  -- `SocketConfig::apply`.
  unfoldable pub apply_client :
      SocketConfig → options.State → Result options.State SocketConfigError
  unfolding apply_shared
  apply_client c socket = do
    socket ← apply_shared c.socket_config socket
    socket ←
        set_or options reconnect_min_time_failed
          (SocketOption.reconnect_min_time c.reconnect_min_time) socket
    socket ←
        set_or options reconnect_max_time_failed
          (SocketOption.reconnect_max_time c.reconnect_max_time) socket
    set_or options resend_time_failed (SocketOption.resend_time c.resend_time) socket

  unfoldable pub configured :
      Option SocketConfig → options.State → Result options.State SocketConfigError
  unfolding apply_client
  configured none socket = ok socket
  configured (some c) socket = apply_client c socket

  -- `SocketConfig::create_socket`; the socket that nng makes, non-blocking, or its error.
  unfoldable pub create_socket :
      Result options.State NngError → Option SocketConfig → Result options.State SocketConfigError
  unfolding configured
  create_socket made c = do socket ← map_err socket_create_failed made; configured c socket

unfoldable pub set_socket_reconnect_min_time : ℕ → SocketConfig → SocketConfig
set_socket_reconnect_min_time t c = record c { reconnect_min_time = some t }

unfoldable pub set_socket_reconnect_max_time : ℕ → SocketConfig → SocketConfig
set_socket_reconnect_max_time t c = record c { reconnect_max_time = some t }

unfoldable pub set_resend_time : ℕ → SocketConfig → SocketConfig
set_resend_time t c = record c { resend_time = some t }

unfoldable pub set_socket_config : Config.SocketConfig → SocketConfig → SocketConfig
set_socket_config s c = record c { socket_config = some s }

pub record DialerConfig : Type 0 where
  pub url : Str
  pub parallelism : ℕ
  pub recv_max_size : Option ℕ
  pub no_delay : Option Bool
  pub keep_alive : Option Bool
  pub reconnect_min_time : Option ℕ
  pub reconnect_max_time : Option ℕ

pub data DialerConfigError : Type 0 where
  dialer_options_create_failed : NngError → DialerConfigError
  dialer_recv_max_size : NngError → DialerConfigError
  dialer_no_delay : NngError → DialerConfigError
  dialer_keep_alive : NngError → DialerConfigError
  dialer_reconnect_min_time : NngError → DialerConfigError
  dialer_reconnect_max_time : NngError → DialerConfigError
  dialer_start_error : NngError → DialerConfigError

-- `DialerConfig::new`.
unfoldable pub new_dialer : Str → DialerConfig
new_dialer url = record {
  url = url;
  parallelism = 1;
  recv_max_size = none;
  no_delay = none;
  keep_alive = none;
  reconnect_min_time = none;
  reconnect_max_time = none;
}

unfoldable pub start_dialer :
    {Socket : Type 0} (nng : Endpoint Socket)
    → DialerConfig
    → Socket
    → Result nng.Handle DialerConfigError
start_dialer nng c socket = do
  options ← map_err dialer_options_create_failed (nng.new socket c.url)
  options ←
      set_some nng.options dialer_recv_max_size SocketOption.recv_max_size c.recv_max_size options
  options ← set_some nng.options dialer_no_delay SocketOption.tcp_no_delay c.no_delay options
  options ← set_some nng.options dialer_keep_alive SocketOption.tcp_keep_alive c.keep_alive options
  options ←
      set_or nng.options dialer_reconnect_min_time
        (SocketOption.reconnect_min_time c.reconnect_min_time) options
  options ←
      set_or nng.options dialer_reconnect_max_time
        (SocketOption.reconnect_max_time c.reconnect_max_time) options
  map_err dialer_start_error (nng.start true options)

unfoldable pub set_dialer_recv_max_size : ℕ → DialerConfig → DialerConfig
set_dialer_recv_max_size size c = record c { recv_max_size = some size }

unfoldable pub set_dialer_no_delay : Bool → DialerConfig → DialerConfig
set_dialer_no_delay no_delay c = record c { no_delay = some no_delay }

unfoldable pub set_dialer_keep_alive : Bool → DialerConfig → DialerConfig
set_dialer_keep_alive keep_alive c = record c { keep_alive = some keep_alive }

unfoldable pub set_parallelism : ℕ → DialerConfig → DialerConfig
set_parallelism count c = record c { parallelism = count }

unfoldable pub set_reconnect_min_time : ℕ → DialerConfig → DialerConfig
set_reconnect_min_time t c = record c { reconnect_min_time = some t }

unfoldable pub set_reconnect_max_time : ℕ → DialerConfig → DialerConfig
set_reconnect_max_time t c = record c { reconnect_max_time = some t }
