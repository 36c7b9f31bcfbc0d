-- ===== src/Nng/Types.antt =====
-- The crate nng as the source uses it: sockets whose options are set one by one. A call answers
-- success or an `nng::Error`, and leaves a socket.
use oysterpack.Prelude.{ℕ, Bool, Option, none, some, Result, ok, ◌>>=◌, map_err, nat_eq, list_eq}
use oysterpack.Text.{Str}

-- `nng::Error`, of which the source tells one case from the others.
pub data NngError : Type 0 where
  closed : NngError
  other : ℕ → NngError

-- The options that the source sets; a duration is a number of milliseconds.
pub data SocketOption : Type 0 where
  recv_buffer_size : ℕ → SocketOption
  send_buffer_size : ℕ → SocketOption
  recv_max_size : ℕ → SocketOption
  recv_timeout : Option ℕ → SocketOption
  send_timeout : Option ℕ → SocketOption
  max_ttl : ℕ → SocketOption
  socket_name : Str → SocketOption
  tcp_no_delay : Bool → SocketOption
  tcp_keep_alive : Bool → SocketOption
  reconnect_min_time : Option ℕ → SocketOption
  reconnect_max_time : Option ℕ → SocketOption
  resend_time : Option ℕ → SocketOption

-- Something whose options are set: a socket, or the options of a dialer or of a listener.
pub record Options : Type 1 where
  pub State : Type 0
  pub set_opt : SocketOption → State → Result (Unit {0}) NngError × State

module _ (options : Options) where
  -- `.set_opt::<..>(..).map_err(..)?`
  abbrev pub set_or {κ} :
      {E : Type κ} → (NngError → E) → SocketOption → options.State → Result options.State E
  set_or failure opt socket =
      let (result, socket') = options.set_opt opt socket in
      map_err failure result >>= λ _. ok socket'

  -- `if let Some(opt) = .. { .. }` around it.
  abbrev pub set_some {κ μ} :
      {A : Type μ} {E : Type κ}
      → (NngError → E)
      → (A → SocketOption)
      → Option A
      → options.State
      → Result options.State E
  set_some failure opt none socket = ok socket
  set_some failure opt (some a) socket = set_or failure (opt a) socket

-- A listener or a dialer: its options are made from a socket and an address, and started.
pub record Endpoint (Socket : Type 0) : Type 1 where
  pub options : Options
  pub Handle : Type 0
  pub new : Socket → Str → Result options.State NngError
  pub start : Bool → options.State → Result Handle NngError
