-- ===== src/Tests.antt =====
-- Concrete inputs, and the theorems at them: a library that answers every call, a namespace of 4-byte blocks
-- and requests on it.
mod Io
mod Ranges
mod Admin
mod Data
mod Reservations
mod Tree
mod Memory
mod Reference
mod Examples
mod Commands
use libnvme_rs.Base.{ℕ, ℤ, pos, negsuc, false, Option, none, some, List, [], ◌∷◌}
use libnvme_rs.Headers.Fabrics.{NvmeFabricsConfig}
use libnvme_rs.Ffi.{Libnvme, Reply, Call, nvme_ns_get_fd, nvme_ctrl_get_fd}
use libnvme_rs.Namespace.{Namespace}
use libnvme_rs.Controller.{Controller}
use libnvme_rs.Io.Control.{default_opts}
use libnvme_rs.Io.Commands.{Transfer}

abbrev pub reply : ℤ → Reply
reply ret = record {
  ret = ret;
  errno = 13;
  written = some 7;
  pointer = some 40;
  data_bytes = 1 ∷ 2 ∷ [];
  metadata_bytes = [];
}

-- Descriptor 3, and success for every command.
abbrev pub answer_to : Call → Reply
answer_to (nvme_ns_get_fd h) = reply (pos 3)
answer_to (nvme_ctrl_get_fd h) = reply (pos 3)
answer_to _ = reply (pos 0)

abbrev pub default_config : NvmeFabricsConfig
default_config = record {
  host_traddr = none;
  host_iface = none;
  queue_size = pos 0;
  nr_io_queues = pos 0;
  reconnect_delay = pos 0;
  ctrl_loss_tmo = pos 600;
  fast_io_fail_tmo = pos 0;
  keep_alive_tmo = pos 0;
  nr_write_queues = pos 0;
  nr_poll_queues = pos 0;
  tos = negsuc 0;
  keyring = pos 0;
  tls_key = pos 0;
  tls_configured_key = pos 0;
  duplicate_connect = false;
  disable_sqflow = false;
  hdr_digest = false;
  data_digest = false;
  tls = false;
  concat = false;
}

abbrev pub working : Libnvme
working = record {
  answer = λ t c. answer_to c;
  ns_get_nsid = λ h. pos 1;
  ns_get_lba_size = λ h. pos 4;
  ns_get_meta_size = λ h. pos 0;
  ns_get_lba_count = λ h. 100;
  size_of = λ a. pos 80;
  fabrics_defaults = default_config;
}

-- The same device without the permission to open it.
abbrev pub denied : Libnvme
denied = record working { answer = λ t c. reply (negsuc 0) }

abbrev pub ns0 : Namespace
ns0 = record { inner = 5 }

abbrev pub ctrl0 : Controller
ctrl0 = record { inner = 9 }

abbrev pub two_blocks : Transfer
two_blocks = record {
  ns = ns0;
  slba = 10;
  nlb = 2;
  buf = 0 ∷ 0 ∷ 0 ∷ 0 ∷ 0 ∷ 0 ∷ 0 ∷ 0 ∷ [];
  metadata = none;
  opts = default_opts;
}

-- Three blocks announced for the bytes of two.
abbrev pub short_buffer : Transfer
short_buffer = record two_blocks { nlb = 3 }
