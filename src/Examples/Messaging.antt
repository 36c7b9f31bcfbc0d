-- ===== src/Examples/Messaging.antt =====
-- Request/reply messaging.
use oysterpack.Prelude.{
  HashMap, get, contains_key, ℕ, ◌+◌, ◌≡◌, ◌≢◌, refl, ◌⊎◌, true, false, List, [], ◌∷◌, ◌++◌, Option,
  none, some, ok, err, ◌>>=◌, ◌==◌, nat_eq, if◌then◌else◌,
}
use oysterpack.ReqRep.Counts.{
  service_instance_count, service_instance_counts, service_instance_counts-get,
}
use oysterpack.ReqRep.Gauge.{ℤ, negsuc, pos, dec}
use oysterpack.ReqRep.Service.{
  ReqRepServiceMetrics, Processor, ReqRepMessage, Service, default_panicked, handle_all, handle,
  settle, take_request, shut_down, service, uncount, task,
}
use oysterpack.ReqRep.Accounts.{began, Settled, task-service_count, task-accounts}
use oysterpack.ReqRep.Replies.{
  message, messages, replies, task-replies, struck, task-panicked-none, task-panicked-some,
}
use oysterpack.ReqRep.Client.{Mpsc, ReqRep, send_all, delivered, send_all-task}

-- A processor that answers the running sum.
abbrev adder : Processor ℕ ℕ
adder = record {
  State = ℕ;
  PanicError = Unit {0};
  init = λ s. some s;
  process = λ s r. some (s + r, ok (s + r));
  panicked = default_panicked;
  destroy = λ s. some s;
}

-- A processor that panics on 0, with a given handler of panics.
abbrev fragile : (ℕ → Unit {0} → Option ℕ) → Processor ℕ ℕ
fragile handler = record {
  State = ℕ;
  PanicError = Unit {0};
  init = λ s. some s;
  process = λ s r. if r == 0 then some (s, err tt) else some (s + r, ok (s + r));
  panicked = handler;
  destroy = λ s. some s;
}

abbrev defaulting : Processor ℕ ℕ
defaulting = fragile default_panicked

abbrev recovering : Processor ℕ ℕ
recovering = fragile (λ s e. some (s + 100))

abbrev fresh : (p : Processor ℕ ℕ) → p.State → Service p
fresh p s = record {
  processor = s;
  metrics = record { timer = 0; service_count = pos 0; panic_count = 0 };
  request_count = 0;
  replies = [];
  destroyed = false;
}

abbrev requests : List (ℕ × ℕ)
requests = (0, 5) ∷ (1, 6) ∷ []

abbrev sum : adder.State → ℕ → adder.State × ℕ
sum s r = (s + r, s + r)

task-replies_example :
    ((task adder (messages requests) (fresh adder 0)).replies ≡ [] ++ replies adder sum 0 requests)
    × ((task adder (messages requests) (fresh adder 0)).metrics.panic_count ≡ 0)
    × ((state' : ℕ)
        → some 11 ≡ some state'
        → ((task adder (messages requests) (fresh adder 0)).destroyed ≡ true)
          × ((task adder (messages requests) (fresh adder 0)).processor ≡ state'))
task-replies_example = task-replies adder sum (λ s r. refl) requests (fresh adder 0) 0 refl

sums : replies adder sum 0 requests ≡ (0, 5) ∷ (1, 11) ∷ []
sums = refl

task-service_count_example :
    ((adder.init 0 ≡ none)
      × ((task adder (messages requests) (fresh adder 0)).metrics.service_count ≡ dec (pos 0)))
    ⊎ ((adder.init 0 ≢ none)
        × ((task adder (messages requests) (fresh adder 0)).metrics.service_count ≡ pos 0))
task-service_count_example = task-service_count adder (messages requests) (fresh adder 0)

ends_well : (task adder (messages requests) (fresh adder 0)).destroyed ≡ true
unfolding task service handle_all handle settle take_request shut_down
ends_well = refl

task-accounts_example :
    Settled adder 2 (fresh adder 0) (task adder (messages requests) (fresh adder 0))
task-accounts_example = task-accounts adder (messages requests) (fresh adder 0) refl ends_well

abbrev after_one : (p : Processor ℕ ℕ) → p.State → Service p
after_one p s = record {
  processor = s;
  metrics = record { timer = 1; service_count = pos 1; panic_count = 0 };
  request_count = 1;
  replies = (0, 5) ∷ [];
  destroyed = false;
}

one_handled :
    handle_all defaulting (message (0, 5) ∷ []) (began defaulting 0 (fresh defaulting 0))
    ≡ ok (after_one defaulting 5)
unfolding handle_all handle settle take_request
one_handled = refl

one_recovered :
    handle_all recovering (message (0, 5) ∷ []) (began recovering 0 (fresh recovering 0))
    ≡ ok (after_one recovering 5)
unfolding handle_all handle settle take_request
one_recovered = refl

task-panicked-none_example :
    task defaulting
      ((message (0, 5) ∷ []) ++ message (1, 0) ∷ message (2, 7) ∷ [])
      (fresh defaulting 0)
    ≡ uncount defaulting (err (struck defaulting 1 0 (after_one defaulting 5) 5 tt refl 5))
task-panicked-none_example =
    task-panicked-none defaulting 1 0 (after_one defaulting 5) 5 tt refl (message (0, 5) ∷ [])
      (fresh defaulting 0) 0 refl one_handled (message (2, 7) ∷ []) refl

task-panicked-some_example :
    task recovering
      ((message (0, 5) ∷ []) ++ message (1, 0) ∷ message (2, 7) ∷ [])
      (fresh recovering 0)
    ≡ uncount recovering (
        handle_all recovering
          (message (2, 7) ∷ [])
          (struck recovering 1 0 (after_one recovering 5) 5 tt refl 105)
        >>= shut_down recovering)
task-panicked-some_example =
    task-panicked-some recovering 1 0 (after_one recovering 5) 5 tt refl (message (0, 5) ∷ [])
      (fresh recovering 0) 0 refl one_recovered (message (2, 7) ∷ []) 105 refl

-- A channel that is never disconnected.
abbrev open_channel : Mpsc ℕ
open_channel = record {
  State = List (ReqRepMessage ℕ);
  SendError = Unit {0};
  send = λ m s. (ok tt, s ++ m ∷ []);
  queued = λ s. s;
  queued-sent = λ m s h. refl;
  queued-failed = λ m s e h. cc;
}

abbrev client : ReqRep open_channel
client = record { request_sender = []; reqrep_id = 3; request_send_counter = 0; next = 0 }

send_all-task_example :
    (task adder
      (send_all open_channel (5 ∷ 6 ∷ []) client).1.request_sender
      (fresh adder 0)).replies
    ≡ replies adder sum 0 (delivered open_channel (send_all open_channel (5 ∷ 6 ∷ []) client).0)
send_all-task_example =
    send_all-task open_channel adder sum (λ s r. refl) (5 ∷ 6 ∷ []) client (fresh adder 0) 0 refl
      refl refl

abbrev of_count : ℤ → ReqRepServiceMetrics
of_count n = record { timer = 0; service_count = n; panic_count = 0 }

-- The service 4 has lost an instance more than it has started.
abbrev instances : HashMap ℕ ReqRepServiceMetrics
instances = (3, of_count (pos 2)) ∷ (4, of_count (negsuc 0)) ∷ []

service_instance_counts-get_example :
    (get 4 (service_instance_counts instances)
      ≡ (if contains_key 4 instances then some (service_instance_count 4 instances) else none))
    × (contains_key 4 instances ≡ false → service_instance_count 4 instances ≡ 0)
service_instance_counts-get_example = service_instance_counts-get 4 instances (refl, (refl, tt))
