-- ===== src/App/Client.antt =====
-- apigate-core/src/app/upstream.rs: the setters of the upstream configuration, and how the client is
-- made. The client library is a parameter; a hook of the user changes a builder of it.
use apigate.Prelude.{ℕ, ◌≡◌, refl, ap, ◌∙◌, List, [], ◌∷◌, ◌++◌, Bool, Option, some}
use apigate.App.{UpstreamConfig}

-- What the code calls of `HttpConnector` and of the client's `Builder`.
pub record Hyper : Type 1 where
  pub Connector : Type 0
  pub Builder : Type 0
  pub Client : Type 0
  pub new_connector : Connector
  pub set_nodelay : Bool → Connector → Connector
  pub set_connect_timeout : Option ℕ → Connector → Connector
  pub set_keepalive : Option ℕ → Connector → Connector
  pub new_builder : Builder
  pub pool_timer : Builder → Builder
  pub pool_idle_timeout : ℕ → Builder → Builder
  pub pool_max_idle_per_host : ℕ → Builder → Builder
  pub build : Builder → Connector → Client

abbrev connect_timeout : ℕ → UpstreamConfig → UpstreamConfig
connect_timeout timeout config = record config { connect_timeout = timeout }

abbrev pool_idle_timeout : ℕ → UpstreamConfig → UpstreamConfig
pool_idle_timeout timeout config = record config { pool_idle_timeout = timeout }

abbrev pool_max_idle_per_host : ℕ → UpstreamConfig → UpstreamConfig
pool_max_idle_per_host max_idle config = record config { pool_max_idle_per_host = max_idle }

abbrev tcp_nodelay : Bool → UpstreamConfig → UpstreamConfig
tcp_nodelay nodelay config = record config { tcp_nodelay = nodelay }

module _ (hyper : Hyper) where
  -- The configuration with its hooks, in the order in which they were added.
  pub record Configured : Type 0 where
    pub settings : UpstreamConfig
    pub client_configurers : List (hyper.Builder → hyper.Builder)
    pub connector_configurers : List (hyper.Connector → hyper.Connector)

  unfoldable pub configure_client : (hyper.Builder → hyper.Builder) → Configured → Configured
  configure_client configure c = record c {
    client_configurers = c.client_configurers ++ configure ∷ [];
  }

  unfoldable pub configure_connector : (hyper.Connector → hyper.Connector) → Configured → Configured
  configure_connector configure c = record c {
    connector_configurers = c.connector_configurers ++ configure ∷ [];
  }

  -- `for configure in configurers { configure(&mut x); }`
  pub configured_by : {A : Type 0} → List (A → A) → A → A
  configured_by [] a = a
  configured_by (configure ∷ configurers) a = configured_by configurers (configure a)

  unfoldable pub connector_of : Configured → hyper.Connector
  unfolding configured_by
  connector_of c = configured_by c.connector_configurers (
      hyper.set_keepalive (some c.settings.pool_idle_timeout) (
        hyper.set_connect_timeout (some c.settings.connect_timeout)
          (hyper.set_nodelay c.settings.tcp_nodelay hyper.new_connector)))

  unfoldable pub builder_of : Configured → hyper.Builder
  unfolding configured_by
  builder_of c = configured_by c.client_configurers (
      hyper.pool_max_idle_per_host c.settings.pool_max_idle_per_host
        (hyper.pool_idle_timeout c.settings.pool_idle_timeout (hyper.pool_timer hyper.new_builder)))

  unfoldable pub build_client : Configured → hyper.Client
  unfolding connector_of builder_of
  build_client c = hyper.build (builder_of c) (connector_of c)

  configured_by-append :
      {A : Type 0} (fs : List (A → A)) (f : A → A) (a : A)
      → configured_by (fs ++ f ∷ []) a ≡ f (configured_by fs a)
  unfolding configured_by
  configured_by-append [] f a = refl
  configured_by-append (g ∷ fs) f a = configured_by-append fs f (g a)

  connector_of-configure :
      (c : Configured) (f : hyper.Connector → hyper.Connector)
      → connector_of (configure_connector f c) ≡ f (connector_of c)
  unfolding connector_of configure_connector
  connector_of-configure c f = configured_by-append c.connector_configurers f _

  builder_of-configure :
      (c : Configured) (g : hyper.Builder → hyper.Builder)
      → builder_of (configure_client g c) ≡ g (builder_of c)
  unfolding builder_of configure_client
  builder_of-configure c g = configured_by-append c.client_configurers g _

  -- A hook that is added sees the result of the built-in settings and of all hooks before it, and
  -- the hooks of the connector and of the client do not touch one another.
  pub build_client-configure :
      (c : Configured) (f : hyper.Connector → hyper.Connector) (g : hyper.Builder → hyper.Builder)
      → build_client (configure_client g (configure_connector f c))
        ≡ hyper.build (g (builder_of c)) (f (connector_of c))
  unfolding build_client
  build_client-configure c f g =
      ap (λ b. hyper.build b (connector_of (configure_client g (configure_connector f c))))
        (builder_of-configure (configure_connector f c) g)
      ∙ unfold configure_client configure_connector connector_of builder_of in
        ap (λ k. hyper.build (g (builder_of c)) k) (connector_of-configure c f)
