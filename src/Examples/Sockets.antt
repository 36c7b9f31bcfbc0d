-- ===== src/Examples/Sockets.antt =====
-- Sockets and contexts of nng.
use oysterpack.Prelude.{ℕ, Bool, true, none, some, List, [], ◌∷◌, ◌++◌, arith, ok, nat_eq, list_eq}
use oysterpack.Nng.Types.{Options, Endpoint, SocketOption}
use oysterpack.Nng.Context.{Context}
use oysterpack.Nng.Config.{default_config}
use oysterpack.Nng.Config.Bounds.{
  Setting, name, send_buffer, keep_alive, set_all, IsBounded, Bounded, set_all-IsBounded,
}

-- A socket is the list of its options.
abbrev pub options : Options
options = record { State = List SocketOption; set_opt = λ o s. (ok tt, o ∷ s) }

abbrev pub endpoint : Endpoint (List SocketOption)
endpoint = record {
  options = options;
  Handle = Bool;
  new = λ socket url. ok socket;
  start = λ non_blocking opts. ok non_blocking;
}

-- A context that knows the requests that come and the replies that went.
abbrev pub peer : Context ℕ
peer = record {
  State = List ℕ × List ℕ;
  recv = λ s. (ok tt, s);
  send = λ m (s : List ℕ × List ℕ). (ok tt, (s.0, s.1 ++ m ∷ []));
  cancel = λ s. s;
  result = λ s. some (ok tt);
  get_msg = λ (s : List ℕ × List ℕ). elim s.0 [ [] ↦ (none, s) | m ∷ ms ↦ (some m, (ms, s.1)) ];
}

default_config-IsBounded : IsBounded default_config
default_config-IsBounded = record {
  name_fits = λ n e. absurd (ground arith);
  buffer_fits = λ n e. absurd (ground arith);
}

-- The name is "srv", and the buffer is larger than nng's.
abbrev settings : List Setting
settings = name (115 ∷ 114 ∷ 118 ∷ []) ∷ send_buffer 9000 ∷ keep_alive true ∷ []

set_all-IsBounded_example : Bounded settings (set_all settings default_config)
set_all-IsBounded_example = set_all-IsBounded settings default_config default_config-IsBounded
