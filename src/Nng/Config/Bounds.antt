-- ===== src/Nng/Config/Bounds.antt =====
-- What the setters of `SocketConfig` let into a configuration.
use oysterpack.Prelude.{
  some-injective, ℕ, ◌-◌, ◌≤◌, ◌<◌, ◌≡◌, refl, sym, ap, ◌∙◌, subst, ◌≢◌, ◌⊎◌, inl, inr, Bool, some,
  List, [], ◌∷◌, ◌++◌, arith, Outcome, returns, panics, ltb, Bool-cases, In, ◌==◌, nat_eq, list_eq,
}
use mathlib.Core.List.{append-nil}
use oysterpack.Text.{Str, str_len, utf8_width}
use oysterpack.Nng.Config.{
  SocketConfig, max_socket_name_len, max_send_buffer_size, slice_to, cons_cut, named,
  set_socket_name, set_send_buffer_size, set_tcp_keep_alive, set_tcp_no_delay, set_recv_max_size,
  set_recv_buffer_size, set_recv_timeout, set_send_timeout, set_max_ttl,
}

-- A call of a setter.
pub data Setting : Type 0 where
  keep_alive : Bool → Setting
  no_delay : Bool → Setting
  name : Str → Setting
  recv_max : ℕ → Setting
  recv_buffer : ℕ → Setting
  send_buffer : ℕ → Setting
  recv_wait : ℕ → Setting
  send_wait : ℕ → Setting
  ttl : ℕ → Setting

abbrev pub set : Setting → SocketConfig → Outcome SocketConfig
set (keep_alive opt) c = returns (set_tcp_keep_alive opt c)
set (no_delay opt) c = returns (set_tcp_no_delay opt c)
set (name n) c = set_socket_name n c
set (recv_max n) c = returns (set_recv_max_size n c)
set (recv_buffer n) c = returns (set_recv_buffer_size n c)
set (send_buffer n) c = returns (set_send_buffer_size n c)
set (recv_wait n) c = returns (set_recv_timeout n c)
set (send_wait n) c = returns (set_send_timeout n c)
set (ttl n) c = returns (set_max_ttl n c)

abbrev pub then_set :
    (SocketConfig → Outcome SocketConfig) → Outcome SocketConfig → Outcome SocketConfig
then_set next panics = panics
then_set next (returns c) = next c

-- A chain of calls.
abbrev pub set_all : List Setting → SocketConfig → Outcome SocketConfig
set_all [] c = returns c
set_all (s ∷ ss) c = then_set (set_all ss) (set s c)

-- What nng documents of a socket's name and of its send buffer.
pub record IsBounded (c : SocketConfig) : Type 0 where
  pub name_fits : (n : Str) → c.socket_name ≡ some n → str_len n ≤ max_socket_name_len
  pub buffer_fits : (n : ℕ) → c.send_buffer_size ≡ some n → n ≤ max_send_buffer_size

-- No beginning of the text has the length, but the text is longer.
abbrev pub IsCut : ℕ → Str → Type 0
IsCut n s = (n < str_len s) × ((p q : Str) → s ≡ p ++ q → str_len p ≢ n)

head_of : Str → ℕ → ℕ
head_of [] d = d
head_of (c ∷ s) d = c

tail_of : Str → Str
tail_of [] = []
tail_of (c ∷ s) = s

Sliced : ℕ → Str → Outcome Str → Type 0
Sliced n s r =
    ((p : Str) × (q : Str) × (r ≡ returns p) × (s ≡ p ++ q) × (str_len p ≡ n))
    ⊎ ((r ≡ panics) × IsCut n s)

-- A character that is wider than the place that is left is cut.
wide-IsCut : (n c : ℕ) (s : Str) → n ≢ 0 → n < utf8_width c → n < str_len (c ∷ s) → IsCut n (c ∷ s)
unfolding head_of
wide-IsCut n c s z w h = (
  h,
  λ p q e.
      elim p as (λ p. c ∷ s ≡ p ++ q → str_len p ≢ n) [
        | [] ↦ λ e k. z (sym k)
        | d ∷ p ↦ λ e k.
            let same : c ≡ d = ap (λ t. head_of t 0) e in
            absurd (omega (arith, k, w, ap utf8_width same))
      ]
        e,
)

cons-IsCut :
    (n c : ℕ) (s : Str) → n ≢ 0 → utf8_width c ≤ n → IsCut (n - utf8_width c) s → IsCut n (c ∷ s)
unfolding head_of tail_of
cons-IsCut n c s z w (h, cut) = (
  omega (arith, h, w),
  λ p q e.
      elim p as (λ p. c ∷ s ≡ p ++ q → str_len p ≢ n) [
        | [] ↦ λ e k. z (sym k)
        | d ∷ p ↦ λ e k.
            let same : c ≡ d = ap (λ t. head_of t 0) e in
            cut p q (ap tail_of e) (omega (arith, k, w, ap utf8_width same))
      ]
        e,
)

slice_to-Sliced : (n : ℕ) (s : Str) → n ≤ str_len s → Sliced n s (slice_to n s)
unfolding slice_to Sliced cons_cut
slice_to-Sliced n [] h = inl ([], [], ground arith, refl, omega arith)
slice_to-Sliced n (c ∷ s) h = elim (Bool-cases (n == 0)) [
  | inl z ↦ rw z (inl ([], c ∷ s, refl, refl, ground arith))
  | inr z ↦ rw z (elim (Bool-cases (ltb n (utf8_width c))) [
    | inl w ↦ rw w (inr (refl, wide-IsCut n c s (λ e. ground arith) (ground arith) (ground arith)))
    | inr w ↦ rw w (elim (slice_to-Sliced (n - utf8_width c) s (ground arith)) [
      | inl (p, q, e, f, k) ↦ rw (e, cons_cut) (inl (c ∷ p, q, refl, ap (◌∷◌ c) f, ground arith))
      | inr (e, cut) ↦
          rw (e, cons_cut) (inr (refl, cons-IsCut n c s (λ e. ground arith) (ground arith) cut))
    ])
  ])
]

-- The outcomes of `set_socket_name`.
set_socket_name_cases :
    (n : Str) (c : SocketConfig)
    → ((p q : Str) × (n ≡ p ++ q)
        × (str_len p ≤ max_socket_name_len)
        × (set_socket_name n c ≡ returns (record c { socket_name = some p })))
      ⊎ ((set_socket_name n c ≡ panics) × IsCut 63 n)
unfolding set_socket_name named Sliced
set_socket_name_cases n c = elim (Bool-cases (ltb max_socket_name_len (str_len n))) [
  | inl w ↦ elim (slice_to-Sliced 63 n (ground arith)) [
    | inl (p, q, e, f, k) ↦ inl (p, q, f, omega (arith, k), rw w (rw (e, named) refl))
    | inr (e, cut) ↦ inr (rw w (rw (e, named) refl), cut)
  ]
  | inr w ↦ inl (n, [], sym (append-nil n), ground arith, rw w refl)
]

-- What a chain of calls may do.
abbrev pub Bounded : List Setting → Outcome SocketConfig → Type 0
Bounded ss r =
    ((c : SocketConfig) × (r ≡ returns c) × IsBounded c)
    ⊎ ((r ≡ panics) × (n : Str) × In (name n) ss × IsCut 63 n)

name_set :
    (c : SocketConfig) (p : Str)
    → IsBounded c
    → str_len p ≤ max_socket_name_len
    → IsBounded (record c { socket_name = some p })
name_set c p b h = record {
  name_fits = λ n e. subst (λ (t : Str). str_len t ≤ max_socket_name_len) (some-injective e) h;
  buffer_fits = b.buffer_fits;
}

buffer_set : (n : ℕ) (c : SocketConfig) → IsBounded c → IsBounded (set_send_buffer_size n c)
unfolding set_send_buffer_size
buffer_set n c b = record { name_fits = b.name_fits; buffer_fits = λ m e. ground arith }

kept :
    (c d : SocketConfig)
    → IsBounded c
    → d.socket_name ≡ c.socket_name
    → d.send_buffer_size ≡ c.send_buffer_size
    → IsBounded d
kept c d b e f = record {
  name_fits = λ n h. b.name_fits n (sym e ∙ h);
  buffer_fits = λ n h. b.buffer_fits n (sym f ∙ h);
}

set-Bounded : (s : Setting) (c : SocketConfig) → IsBounded c → Bounded (s ∷ []) (set s c)
unfolding set_tcp_keep_alive set_tcp_no_delay set_recv_max_size set_recv_buffer_size
    set_recv_timeout set_send_timeout set_max_ttl
set-Bounded (keep_alive opt) c b = inl (_, refl, kept c _ b refl refl)
set-Bounded (no_delay opt) c b = inl (_, refl, kept c _ b refl refl)
set-Bounded (name n) c b = elim (set_socket_name_cases n c) [
  | inl (p, q, f, k, e) ↦ inl (_, e, name_set c p b k)
  | inr (e, cut) ↦ inr (e, n, inl refl, cut)
]
set-Bounded (recv_max n) c b = inl (_, refl, kept c _ b refl refl)
set-Bounded (recv_buffer n) c b = inl (_, refl, kept c _ b refl refl)
set-Bounded (send_buffer n) c b = inl (_, refl, buffer_set n c b)
set-Bounded (recv_wait n) c b = inl (_, refl, kept c _ b refl refl)
set-Bounded (send_wait n) c b = inl (_, refl, kept c _ b refl refl)
set-Bounded (ttl n) c b = inl (_, refl, kept c _ b refl refl)

-- From a configuration within nng's limits, such as the default one, a chain of calls of the
-- setters, whatever is passed, ends in one within the limits (a name of 63 bytes and a send buffer
-- of 8192 messages at most), or panics; and it panics only if it sets a name that is longer than 63
-- bytes and has a character across its byte 63.
pub set_all-IsBounded :
    (ss : List Setting) (c : SocketConfig) → IsBounded c → Bounded ss (set_all ss c)
set_all-IsBounded [] c b = inl (c, refl, b)
set_all-IsBounded (s ∷ ss) c b = elim (set-Bounded s c b) [
  | inl (d, e, b') ↦ elim (set_all-IsBounded ss d b') [
    | inl (x, f, k) ↦ inl (x, rw e f, k)
    | inr (f, n, m, cut) ↦ inr (rw e f, n, inr m, cut)
  ]
  | inr (e, n, m, cut) ↦ inr (rw e refl, n, elim m [ inl q ↦ inl q | inr k ↦ elim k [ ] ], cut)
]
