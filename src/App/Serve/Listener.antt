-- ===== src/App/Serve/Listener.antt =====
-- What is done to a socket before it is bound, and the backlog that it listens with.
use apigate.Prelude.{
  ℕ, ◌≤◌, ◌≡◌, ◌≢◌, refl, sym, min, In, In-append, In-append_left, In-append_right, ◌∙◌, ap, List,
  [], ◌∷◌, ◌++◌, Bool, true, Option, none, some, Result, ok, inl, inr, ltb, arith, Bool-cases,
}
use mathlib.Core.Path.{subst}
use apigate.App.Serve.{
  ℤ, ipv4, new_socket, default_listen_backlog, pos, Os, ServeConfig, Domain, ipv6, SocketAddr, Call,
  tcp_bind, bind, set_only_v6, set_reuse_address, set_reuse_port, set_nonblocking,
  set_recv_buffer_size, set_send_buffer_size, listen, from_std, i32_max, listen_backlog,
  needs_custom_bind, set_if, set_if_v6, option_calls, bind_calls, run_calls, made, bind_listener,
  default_reuse_address, or_default, served, new_config, run_router_with,
}

-- What the backlog is for a request: no `i32` is exceeded, and a request in range is not changed.
pub listen_backlog-bounds :
    (os : Os) (n : ℕ)
    → (k : ℕ) × (listen_backlog os (some n) ≡ pos k)
      × (k ≤ i32_max)
      × (k ≤ n)
      × (n ≤ i32_max → k ≡ n)
unfolding listen_backlog
listen_backlog-bounds os n = elim (Bool-cases (ltb i32_max n)) [
  | inl big ↦ (i32_max, rw big refl, omega arith, ground arith, λ h. ground arith)
  | inr small ↦ (n, rw small refl, ground arith, omega arith, λ h. refl)
]

-- The backlog of a configuration: the one that it sets, and the largest `i32` if that is larger, or
-- the default for the operating system.
abbrev pub IsBacklog : Os → Option ℕ → ℤ → Type 0
IsBacklog os (some n) z = z ≡ pos (min n 2147483647)
IsBacklog os none z = z ≡ default_listen_backlog os

listen_backlog-IsBacklog : (os : Os) (o : Option ℕ) → IsBacklog os o (listen_backlog os o)
unfolding listen_backlog
listen_backlog-IsBacklog os none = refl
listen_backlog-IsBacklog os (some n) = elim (Bool-cases (ltb i32_max n)) [
  | inl big ↦ rw big (ap pos (ground arith))
  | inr small ↦ rw small (ap pos (ground arith))
]

-- What the configuration asks to be set on the socket, and the queue of the socket.
pub data Requested (addr : SocketAddr) (config : ServeConfig) : Call → Type 0 where
  only_v6 :
      (b : Bool)
      → addr.family ≡ ipv6
      → config.ipv6_only ≡ some b
      → Requested addr config (set_only_v6 b)
  address : (b : Bool) → config.reuse_address ≡ some b → Requested addr config (set_reuse_address b)
  port : (b : Bool) → config.reuse_port ≡ some b → Requested addr config (set_reuse_port b)
  receive :
      (n : ℕ) → config.recv_buffer_size ≡ some n → Requested addr config (set_recv_buffer_size n)
  send : (n : ℕ) → config.send_buffer_size ≡ some n → Requested addr config (set_send_buffer_size n)
  queue :
      (n : ℕ) → config.backlog ≡ some n → Requested addr config (listen (pos (min n 2147483647)))

Requested-custom :
    {addr : SocketAddr} {config : ServeConfig} {c : Call}
    → Requested addr config c
    → needs_custom_bind config ≡ true
unfolding needs_custom_bind
Requested-custom (only_v6 b v6 e) = ground arith
Requested-custom (address b e) = ground arith
Requested-custom (port b e) = ground arith
Requested-custom (receive n e) = ground arith
Requested-custom (send n e) = ground arith
Requested-custom (queue n e) = ground arith

-- A requested call was made in its place: the backlog with the one call that listens, and every
-- other before the socket was bound.
abbrev pub IsPlaced : Call → List Call → ℤ → Type 0
IsPlaced (listen w) before z = w ≡ z
IsPlaced (tcp_bind a) before z = In (tcp_bind a) before
IsPlaced (bind a) before z = In (bind a) before
IsPlaced (new_socket d) before z = In (new_socket d) before
IsPlaced (set_only_v6 b) before z = In (set_only_v6 b) before
IsPlaced (set_reuse_address b) before z = In (set_reuse_address b) before
IsPlaced (set_reuse_port b) before z = In (set_reuse_port b) before
IsPlaced (set_nonblocking b) before z = In (set_nonblocking b) before
IsPlaced (set_recv_buffer_size n) before z = In (set_recv_buffer_size n) before
IsPlaced (set_send_buffer_size n) before z = In (set_send_buffer_size n) before
IsPlaced from_std before z = In from_std before

set_if-In :
    {A : Type 0} (set : A → Call) (o : Option A) (a : A) → o ≡ some a → In (set a) (set_if set o)
set_if-In set o a e = rw e (inl refl)

set_if_v6-In :
    (family : Domain) (o : Option Bool) (b : Bool)
    → family ≡ ipv6
    → o ≡ some b
    → In (set_only_v6 b) (set_if_v6 family o)
set_if_v6-In family o b v6 e = rw (v6, e) (inl refl)

module _ (os : Os) (addr : SocketAddr) (config : ServeConfig) where
  abbrev v6s : List Call
  v6s = set_if_v6 addr.family config.ipv6_only

  abbrev ports : List Call
  ports = set_if set_reuse_port config.reuse_port

  abbrev receives : List Call
  receives = set_if set_recv_buffer_size config.recv_buffer_size

  abbrev sends : List Call
  sends = set_if set_send_buffer_size config.send_buffer_size

  abbrev after_v6 : List Call
  after_v6 =
      set_reuse_address (or_default config.reuse_address (default_reuse_address os))
      ∷ (ports ++ (receives ++ sends))

  Requested-set :
      (c : Call)
      → Requested addr config c
      → IsPlaced c (option_calls os addr config) (listen_backlog os config.backlog)
  unfolding option_calls
  Requested-set _ (only_v6 b v6 e) = inr (
      In-append_left (set_only_v6 b) v6s after_v6
        (set_if_v6-In addr.family config.ipv6_only b v6 e))
  Requested-set _ (address b e) =
      inr (In-append_right (set_reuse_address b) v6s after_v6 (inl (rw e refl)))
  Requested-set _ (port b e) = inr (
      In-append_right (set_reuse_port b) v6s after_v6 (
        inr (
          In-append_left (set_reuse_port b) ports (receives ++ sends)
            (set_if-In set_reuse_port config.reuse_port b e))))
  Requested-set _ (receive n e) = inr (
      In-append_right (set_recv_buffer_size n) v6s after_v6 (
        inr (
          In-append_right (set_recv_buffer_size n) ports (receives ++ sends) (
            In-append_left (set_recv_buffer_size n) receives sends
              (set_if-In set_recv_buffer_size config.recv_buffer_size n e)))))
  Requested-set _ (send n e) = inr (
      In-append_right (set_send_buffer_size n) v6s after_v6 (
        inr (
          In-append_right (set_send_buffer_size n) ports (receives ++ sends) (
            In-append_right (set_send_buffer_size n) receives sends
              (set_if-In set_send_buffer_size config.send_buffer_size n e)))))
  Requested-set _ (queue n e) =
      let is = listen_backlog-IsBacklog os config.backlog in
      sym (subst (λ o. IsBacklog os o (listen_backlog os config.backlog)) e is)

not_set_if :
    {A : Type 0} (set : A → Call) (b : SocketAddr) (o : Option A)
    → ((a : A) → bind b ≢ set a)
    → ¬ In (bind b) (set_if set o)
not_set_if set b none differs h = h
not_set_if set b (some a) differs (inl e) = differs a e
not_set_if set b (some a) differs (inr h) = h

not_set_if_v6 :
    (b : SocketAddr) (family : Domain) (o : Option Bool) → ¬ In (bind b) (set_if_v6 family o)
not_set_if_v6 b ipv4 o h = h
not_set_if_v6 b ipv6 o h = not_set_if set_only_v6 b o (λ a e. cc) h

-- No option of the socket binds it.
unbound :
    (os : Os) (addr : SocketAddr) (config : ServeConfig) (b : SocketAddr)
    → ¬ In (bind b) (option_calls os addr config)
unfolding option_calls
unbound os addr config b (inl e) = cc
unbound os addr config b (inr h) =
    elim (In-append (bind b) (set_if_v6 addr.family config.ipv6_only) _ h) [
      | inl v6 ↦ not_set_if_v6 b addr.family config.ipv6_only v6
      | inr (inl e) ↦ cc
      | inr (inr later) ↦ elim (In-append (bind b) (ports os addr config) _ later) [
        | inl reuse ↦ not_set_if set_reuse_port b config.reuse_port (λ a e. cc) reuse
        | inr sizes ↦ elim (In-append (bind b) (receives os addr config) _ sizes) [
          | inl received ↦
              not_set_if set_recv_buffer_size b config.recv_buffer_size (λ a e. cc) received
          | inr sent ↦ not_set_if set_send_buffer_size b config.send_buffer_size (λ a e. cc) sent
        ]
      ]
    ]

module _ {Error : Type 0} (fails : Call → Option Error) where
  made-ok :
      (c : Call) (o : Option Error) (calls : List Call)
      (rest : List Call × Result {0, 0} Error Unit)
      → (rest.1 ≡ ok tt → rest.0 ≡ calls)
      → (made fails c o rest).1 ≡ ok tt
      → (made fails c o rest).0 ≡ c ∷ calls
  unfolding made
  made-ok c none calls (done, r) all h = ap (λ k. c ∷ k) (all h)
  made-ok c (some e) calls rest all h = cc

  -- Calls that all succeed are all made.
  run_calls-ok :
      (calls : List Call) → (run_calls fails calls).1 ≡ ok tt → (run_calls fails calls).0 ≡ calls
  unfolding run_calls
  run_calls-ok [] h = refl
  run_calls-ok (c ∷ calls) h =
      made-ok c (fails c) calls (run_calls fails calls) (run_calls-ok calls) h

  -- If the listener comes up and the configuration asks for an option of the socket or for a
  -- backlog, then the socket was bound once; every requested option was set before that; and after
  -- it the socket was put to listen with the backlog that the configuration sets, cut to the
  -- largest `i32`, or with the default for the operating system if it sets none.
  pub bind_listener-Requested :
      (os : Os) (addr : SocketAddr) (config : ServeConfig) (c : Call)
      → Requested addr config c
      → (bind_listener fails os addr config).1 ≡ ok tt
      → (before : List Call) × (z : ℤ) × IsPlaced c before z
        × IsBacklog os config.backlog z
        × ((b : SocketAddr) → ¬ In (bind b) before)
        × ((bind_listener fails os addr config).0
            ≡ before ++ (set_nonblocking true ∷ bind addr ∷ listen z ∷ from_std ∷ []))
  unfolding bind_listener bind_calls
  bind_listener-Requested os addr config c r h = (
    option_calls os addr config,
    listen_backlog os config.backlog,
    Requested-set os addr config c r,
    listen_backlog-IsBacklog os config.backlog,
    unbound os addr config,
    run_calls-ok (bind_calls os addr config) h ∙ rw (Requested-custom r) refl,
  )

  plain :
      (c : Call) (o : Option Error) (nodelay : Option Bool)
      → ((made fails c o ([], ok tt)).0 ≡ c ∷ [])
        × ((s : Option Bool)
            → served fails nodelay (made fails c o ([], ok tt)).1 ≡ ok s
            → s ≡ nodelay)
  unfolding made served
  plain c none nodelay = (refl, λ s h. cc)
  plain c (some e) nodelay = (refl, λ s h. cc)

  -- A configuration that sets nothing but `TCP_NODELAY` binds as the default one does, with the one
  -- plain call, and the option goes to the streams that are accepted.
  pub run_router_with-nodelay :
      (os : Os) (addr : SocketAddr) (nodelay : Option Bool)
      → ((run_router_with fails os addr (record new_config { tcp_nodelay = nodelay })).0
          ≡ tcp_bind addr ∷ [])
        × ((s : Option Bool)
            → (run_router_with fails os addr (record new_config { tcp_nodelay = nodelay })).1 ≡ ok s
            → s ≡ nodelay)
  unfolding run_router_with bind_listener
  run_router_with-nodelay os addr nodelay = plain (tcp_bind addr) (fails (tcp_bind addr)) nodelay
