-- ===== src/Nng/Context.antt =====
-- The crate nng as the tasks of a server or a client use it: a context with its one `Aio`. A call
-- answers success or an `nng::Error`, and leaves a state of the crate's own.
use oysterpack.Prelude.{Option, Result, nat_eq, list_eq}
use oysterpack.Nng.Types.{NngError}

-- `nng::Context` and `nng::Aio`. `result` is `none` until an operation has been reported.
pub record Context (Msg : Type 0) : Type 1 where
  pub State : Type 0
  pub recv : State → Result (Unit {0}) NngError × State
  pub send : Msg → State → Result (Unit {0}) NngError × State
  pub cancel : State → State
  pub result : State → Option (Result (Unit {0}) NngError)
  pub get_msg : State → Option Msg × State
