-- ===== src/Fabrics.antt =====
-- libnvme/src/fabrics.rs: connecting a controller over a fabric, and the discovery log.
pub mod DiscoveryLog
pub mod Laws
use libnvme_rs.Base.{ℕ, ℤ, Bool, true, if◌then◌else◌, Option, none, some, List, [], ◌∷◌}
use libnvme_rs.Util.{str_to_cstring}
use libnvme_rs.Headers.Fabrics.{NvmeFabricsConfig}
use libnvme_rs.Ffi.{
  Handle, Libnvme, Call, M, ◌>>=◌, ◌>>◌, pure, lift, call, issue, CtrlParams, nvme_create_ctrl,
  nvme_ctrl_set_discovery_ctrl, nvme_ctrl_set_unique_discovery_ctrl, nvme_ctrl_set_persistent,
  nvmf_add_ctrl,
}
use libnvme_rs.Tree.{Host}
use libnvme_rs.Controller.{Controller}
use libnvme_rs.Root.{non_null, optional_cstring}

pub data Transport : Type 0 where
  tcp rdma fc loop : Transport
  other : List ℕ → Transport

-- `Transport::as_str`, as ASCII
unfoldable pub transport_as_str : Transport → List ℕ
transport_as_str tcp = 0x74 ∷ 0x63 ∷ 0x70 ∷ []
transport_as_str rdma = 0x72 ∷ 0x64 ∷ 0x6d ∷ 0x61 ∷ []
transport_as_str fc = 0x66 ∷ 0x63 ∷ []
transport_as_str loop = 0x6c ∷ 0x6f ∷ 0x6f ∷ 0x70 ∷ []
transport_as_str (other s) = s

pub record Connect : Type 0 where
  pub host : Host
  pub transport : List ℕ
  pub subsysnqn : List ℕ
  pub traddr : Option (List ℕ)
  pub trsvcid : Option (List ℕ)
  pub host_traddr : Option (List ℕ)
  pub host_iface : Option (List ℕ)
  pub queue_size : Option ℤ
  pub nr_io_queues : Option ℤ
  pub keep_alive_tmo : Option ℤ
  pub reconnect_delay : Option ℤ
  pub ctrl_loss_tmo : Option ℤ
  pub hdr_digest : Bool
  pub data_digest : Bool
  pub tls : Bool
  pub duplicate_connect : Bool
  pub disable_sqflow : Bool
  pub persistent : Bool
  pub discovery : Bool
  pub unique_discovery : Bool

unfoldable pub new_connect : Host → Transport → List ℕ → Connect
new_connect host transport subsysnqn = record {
  host = host;
  transport = transport_as_str transport;
  subsysnqn = subsysnqn;
  traddr = none;
  trsvcid = none;
  host_traddr = none;
  host_iface = none;
  queue_size = none;
  nr_io_queues = none;
  keep_alive_tmo = none;
  reconnect_delay = none;
  ctrl_loss_tmo = none;
  hdr_digest = Bool.false;
  data_digest = Bool.false;
  tls = Bool.false;
  duplicate_connect = Bool.false;
  disable_sqflow = Bool.false;
  persistent = Bool.false;
  discovery = Bool.false;
  unique_discovery = Bool.false;
}

-- `if let Some(n) = given { field = n; }`
unfoldable pub override {ℓ} : {A : Type ℓ} → Option A → A → A
override none default = default
override (some v) default = v

unfoldable pub override_text : Option (List ℕ) → Option (List ℕ) → Option (List ℕ)
override_text none default = default
override_text (some v) default = some v

-- The configuration: libnvme's defaults with the values that were given; the texts are C strings.
unfoldable pub connect_config :
    Connect → Option (List ℕ) → Option (List ℕ) → NvmeFabricsConfig → NvmeFabricsConfig
connect_config c host_traddr host_iface cfg = record cfg {
  queue_size = override c.queue_size cfg.queue_size;
  nr_io_queues = override c.nr_io_queues cfg.nr_io_queues;
  keep_alive_tmo = override c.keep_alive_tmo cfg.keep_alive_tmo;
  reconnect_delay = override c.reconnect_delay cfg.reconnect_delay;
  ctrl_loss_tmo = override c.ctrl_loss_tmo cfg.ctrl_loss_tmo;
  hdr_digest = c.hdr_digest;
  data_digest = c.data_digest;
  tls = c.tls;
  duplicate_connect = c.duplicate_connect;
  disable_sqflow = c.disable_sqflow;
  host_traddr = override_text host_traddr cfg.host_traddr;
  host_iface = override_text host_iface cfg.host_iface;
}

-- The builder's `discovery` and `unique_discovery`; every other setter stores its field.
unfoldable pub set_discovery : Connect → Connect
set_discovery c = record c { discovery = true }

unfoldable pub set_unique_discovery : Connect → Connect
set_unique_discovery c = record c { discovery = true; unique_discovery = true }

-- The texts of a connection as C strings, refused when one has an interior NUL: `CString::new` with `invalid_input` is
-- `str_to_cstring` with another message.
unfoldable pub connect_params : Connect → M CtrlParams
connect_params c = do
  subsysnqn ← lift (str_to_cstring c.subsysnqn)
  transport ← lift (str_to_cstring c.transport)
  traddr ← lift (optional_cstring c.traddr)
  trsvcid ← lift (optional_cstring c.trsvcid)
  host_traddr ← lift (optional_cstring c.host_traddr)
  host_iface ← lift (optional_cstring c.host_iface)
  pure (record {
    root = c.host.root;
    subsysnqn = subsysnqn;
    transport = transport;
    traddr = traddr;
    host_traddr = host_traddr;
    host_iface = host_iface;
    trsvcid = trsvcid;
  })

module _ (lib : Libnvme) where
  -- `if flag { setter(ctrl, true) }`
  unfoldable pub set_if : Bool → Call → M (Unit {0})
  set_if flag setter = if flag then call lib setter >>= (λ _. pure tt) else pure tt

  -- The flags of a controller that was just created.
  unfoldable pub set_flags : Connect → Handle → M (Unit {0})
  set_flags c ctrl = do
    _ ← set_if c.discovery (nvme_ctrl_set_discovery_ctrl ctrl true)
    _ ← set_if c.unique_discovery (nvme_ctrl_set_unique_discovery_ctrl ctrl true)
    set_if c.persistent (nvme_ctrl_set_persistent ctrl true)

  -- The call that connects the controller.
  unfoldable pub add_ctrl : Connect → CtrlParams → Handle → Call
  add_ctrl c params ctrl =
      nvmf_add_ctrl c.host.inner ctrl
        (connect_config c params.host_traddr params.host_iface lib.fabrics_defaults)

  unfoldable pub connect_execute : Connect → M Controller
  connect_execute c = do
    params ← connect_params c
    created ← call lib (nvme_create_ctrl params)
    ctrl ← lift (non_null created)
    _ ← set_flags c ctrl
    issue lib (add_ctrl c params ctrl) (λ _. record { inner = ctrl })
