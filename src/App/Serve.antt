-- ===== src/App/Serve.antt =====
-- apigate-core/src/app/serve.rs: the options of the listener and how it is bound, on a Unix that has
-- `SO_REUSEPORT`. The calls of the operating system are a parameter, which says how each one fails.
pub mod Listener
use apigate.Prelude.{
  ℕ, ◌^◌, ◌-◌, List, [], ◌∷◌, ◌++◌, Bool, true, false, ◌||◌, Option, none, some, is_some, Result,
  ok, err, ltb, if◌then◌else◌,
}

-- `negsuc n` is -(n + 1); an `i32` is one with 32 bits.
pub data ℤ : Type 0 where
  pos : ℕ → ℤ
  negsuc : ℕ → ℤ

pub data Os : Type 0 where
  linux freebsd openbsd apple windows redox espidf horizon hermit other_os : Os

pub record ServeConfig : Type 0 where
  pub backlog : Option ℕ
  pub reuse_address : Option Bool
  pub reuse_port : Option Bool
  pub ipv6_only : Option Bool
  pub recv_buffer_size : Option ℕ
  pub send_buffer_size : Option ℕ
  pub tcp_nodelay : Option Bool

abbrev pub new_config : ServeConfig
new_config = record {
  backlog = none;
  reuse_address = none;
  reuse_port = none;
  ipv6_only = none;
  recv_buffer_size = none;
  send_buffer_size = none;
  tcp_nodelay = none;
}

abbrev backlog : ℕ → ServeConfig → ServeConfig
backlog n config = record config { backlog = some n }

abbrev reuse_address : Bool → ServeConfig → ServeConfig
reuse_address reuse config = record config { reuse_address = some reuse }

abbrev reuse_port : Bool → ServeConfig → ServeConfig
reuse_port reuse config = record config { reuse_port = some reuse }

abbrev ipv6_only : Bool → ServeConfig → ServeConfig
ipv6_only only_v6 config = record config { ipv6_only = some only_v6 }

abbrev recv_buffer_size : ℕ → ServeConfig → ServeConfig
recv_buffer_size n config = record config { recv_buffer_size = some n }

abbrev send_buffer_size : ℕ → ServeConfig → ServeConfig
send_buffer_size n config = record config { send_buffer_size = some n }

abbrev tcp_nodelay : Bool → ServeConfig → ServeConfig
tcp_nodelay nodelay config = record config { tcp_nodelay = some nodelay }

pub data Domain : Type 0 where
  ipv4 ipv6 : Domain

-- A socket address, of which the code looks at the family.
pub record SocketAddr : Type 0 where
  pub family : Domain
  pub port : ℕ

pub data Call : Type 0 where
  tcp_bind bind : SocketAddr → Call
  new_socket : Domain → Call
  set_only_v6 set_reuse_address set_reuse_port set_nonblocking : Bool → Call
  set_recv_buffer_size set_send_buffer_size : ℕ → Call
  listen : ℤ → Call
  from_std : Call

unfoldable pub default_reuse_address : Os → Bool
default_reuse_address windows = false
default_reuse_address _ = true

abbrev pub i32_max : ℕ
i32_max = 2 ^ 31 - 1

unfoldable pub default_listen_backlog : Os → ℤ
default_listen_backlog linux = negsuc 0
default_listen_backlog freebsd = negsuc 0
default_listen_backlog openbsd = negsuc 0
default_listen_backlog apple = negsuc 0
default_listen_backlog windows = pos 128
default_listen_backlog redox = pos 128
default_listen_backlog espidf = pos 128
default_listen_backlog horizon = pos 128
default_listen_backlog hermit = pos 1024
default_listen_backlog other_os = pos i32_max

-- `try_into` fails above the range of an `i32`.
unfoldable pub listen_backlog : Os → Option ℕ → ℤ
unfolding default_listen_backlog
listen_backlog os (some n) = if ltb i32_max n then pos i32_max else pos n
listen_backlog os none = default_listen_backlog os

unfoldable pub needs_custom_bind : ServeConfig → Bool
needs_custom_bind config =
    is_some config.backlog
    || (is_some config.reuse_address
        || (is_some config.ipv6_only
            || (is_some config.recv_buffer_size
                || (is_some config.send_buffer_size || is_some config.reuse_port))))

abbrev pub or_default : Option Bool → Bool → Bool
or_default none b = b
or_default (some a) b = a

-- `if let Some(x) = option { socket.set(x)?; }`
abbrev pub set_if : {A : Type 0} → (A → Call) → Option A → List Call
set_if set none = []
set_if set (some a) = set a ∷ []

abbrev pub set_if_v6 : Domain → Option Bool → List Call
set_if_v6 ipv4 only_v6 = []
set_if_v6 ipv6 only_v6 = set_if set_only_v6 only_v6

-- The options of the socket, in the order of the calls.
unfoldable pub option_calls : Os → SocketAddr → ServeConfig → List Call
unfolding default_reuse_address
option_calls os addr config =
    new_socket addr.family
    ∷ (set_if_v6 addr.family config.ipv6_only
        ++ (set_reuse_address (or_default config.reuse_address (default_reuse_address os))
            ∷ (set_if set_reuse_port config.reuse_port
                ++ (set_if set_recv_buffer_size config.recv_buffer_size
                    ++ set_if set_send_buffer_size config.send_buffer_size))))

unfoldable pub bind_calls : Os → SocketAddr → ServeConfig → List Call
unfolding option_calls listen_backlog needs_custom_bind
bind_calls os addr config =
    if needs_custom_bind config
    then option_calls os addr config
      ++ (set_nonblocking true
          ∷ bind addr
          ∷ listen (listen_backlog os config.backlog)
          ∷ from_std
          ∷ [])
    else tcp_bind addr ∷ []

-- The calls that are made, each with `?`: those before the first that fails, and that one.
module _ {Error : Type 0} (fails : Call → Option Error) where
  pub made :
      Call
      → Option Error
      → List Call × Result {0, 0} Error Unit
      → List Call × Result {0, 0} Error Unit
  made c none (calls, r) = (c ∷ calls, r)
  made c (some e) rest = (c ∷ [], err e)

  pub run_calls : List Call → List Call × Result {0, 0} Error Unit
  unfolding made
  run_calls [] = ([], ok tt)
  run_calls (c ∷ calls) = made c (fails c) (run_calls calls)

  unfoldable pub bind_listener :
      Os → SocketAddr → ServeConfig → List Call × Result {0, 0} Error Unit
  unfolding run_calls bind_calls
  bind_listener os addr config = run_calls (bind_calls os addr config)

  -- What is served: the option that is set on each accepted stream, where a failure is only traced,
  -- or the error of the listener.
  pub served : Option Bool → Result {0, 0} Error Unit → Result Error (Option Bool)
  served nodelay (err e) = err e
  served nodelay (ok _) = ok nodelay

  unfoldable pub run_router_with :
      Os → SocketAddr → ServeConfig → List Call × Result Error (Option Bool)
  unfolding bind_listener served
  run_router_with os addr config =
      let (calls, r) = bind_listener os addr config in (calls, served config.tcp_nodelay r)

  unfoldable run_router : Os → SocketAddr → List Call × Result Error (Option Bool)
  unfolding run_router_with
  run_router os addr = run_router_with os addr new_config
