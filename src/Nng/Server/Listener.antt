-- ===== src/Nng/Server/Listener.antt =====
-- `ListenerConfig` of oysterpack-trust-nng/src/reqrep/server.rs. An address is the text of its URL;
-- the number of CPUs is a parameter, as are nng's listeners.
use oysterpack.Prelude.{
  ℕ, ◌+◌, Bool, true, Option, none, some, Result, ◌>>=◌, map_err, nat_eq, list_eq,
}
use oysterpack.Text.{Str}
use oysterpack.Nng.Types.{NngError, Endpoint, SocketOption, set_some}

pub record ListenerConfig : Type 0 where
  pub url : Str
  pub recv_max_size : Option ℕ
  pub no_delay : Option Bool
  pub keep_alive : Option Bool
  pub non_blocking : Bool
  pub parallelism : ℕ

pub data ListenerConfigError : Type 0 where
  listener_options_create_failed : NngError → ListenerConfigError
  listener_start_failed : NngError → ListenerConfigError
  recv_max_size_error : NngError → ListenerConfigError
  tcp_no_delay_error : NngError → ListenerConfigError
  tcp_keep_alive_error : NngError → ListenerConfigError

unfoldable pub new : (num_cpus : ℕ) → Str → ListenerConfig
new num_cpus url = record {
  url = url;
  recv_max_size = none;
  no_delay = none;
  keep_alive = none;
  non_blocking = true;
  parallelism = num_cpus + 1;
}

unfoldable pub start_listener :
    {Socket : Type 0} (nng : Endpoint Socket)
    → ListenerConfig
    → Socket
    → Result nng.Handle ListenerConfigError
start_listener nng c socket = do
  options ← map_err listener_options_create_failed (nng.new socket c.url)
  options ←
      set_some nng.options recv_max_size_error SocketOption.recv_max_size c.recv_max_size options
  options ← set_some nng.options tcp_no_delay_error SocketOption.tcp_no_delay c.no_delay options
  options ←
      set_some nng.options tcp_keep_alive_error SocketOption.tcp_keep_alive c.keep_alive options
  map_err listener_start_failed (nng.start c.non_blocking options)

unfoldable pub set_recv_max_size : ℕ → ListenerConfig → ListenerConfig
set_recv_max_size size c = record c { recv_max_size = some size }

unfoldable pub set_no_delay : Bool → ListenerConfig → ListenerConfig
set_no_delay no_delay c = record c { no_delay = some no_delay }

unfoldable pub set_keep_alive : Bool → ListenerConfig → ListenerConfig
set_keep_alive keep_alive c = record c { keep_alive = some keep_alive }

unfoldable pub set_non_blocking : Bool → ListenerConfig → ListenerConfig
set_non_blocking non_blocking c = record c { non_blocking = non_blocking }

unfoldable pub set_aio_count : ℕ → ListenerConfig → ListenerConfig
set_aio_count count c = record c { parallelism = count }
