-- ===== src/Headers/Fabrics.antt =====
-- libnvme-sys/vendored-headers/nvme/fabrics.h and types.h: the configuration of a connection and the entries of
-- a discovery log. A character array is the list of its bytes, a C string the memory from its start on.
use libnvme_rs.Base.{ℕ, ℤ, Bool, Option, List}

pub record NvmeFabricsConfig : Type 0 where
  pub host_traddr : Option (List ℕ)
  pub host_iface : Option (List ℕ)
  pub queue_size : ℤ
  pub nr_io_queues : ℤ
  pub reconnect_delay : ℤ
  pub ctrl_loss_tmo : ℤ
  pub fast_io_fail_tmo : ℤ
  pub keep_alive_tmo : ℤ
  pub nr_write_queues : ℤ
  pub nr_poll_queues : ℤ
  pub tos : ℤ
  pub keyring : ℤ
  pub tls_key : ℤ
  pub tls_configured_key : ℤ
  pub duplicate_connect : Bool
  pub disable_sqflow : Bool
  pub hdr_digest : Bool
  pub data_digest : Bool
  pub tls : Bool
  pub concat : Bool
