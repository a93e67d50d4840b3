-- ===== src/Headers/Ioctl/Directives.antt =====
-- libnvme-sys/vendored-headers/nvme/ioctl.h: the inline functions for the directives of streams. Each is the call that it makes.
use libnvme_rs.Base.{ℕ, ℤ, ◌+◌, ◌*◌, ◌%◌, ◌^◌, ltb, if◌then◌else◌, Option, none, some, List}
use libnvme_rs.Ffi.{
  Libnvme, Call, directive_recv_args, directive_send_args, nvme_directive_recv, nvme_directive_send,
}
use libnvme_rs.Headers.Ioctl.Constants.{
  nvme_default_ioctl_timeout, nvme_directive_dtype_identify, nvme_directive_dtype_streams,
  nvme_directive_receive_identify_doper_param, nvme_directive_receive_streams_doper_param,
  nvme_directive_receive_streams_doper_resource, nvme_directive_receive_streams_doper_status,
  nvme_directive_send_streams_doper_release_identifier,
  nvme_directive_send_streams_doper_release_resource, nvme_stream_id_max,
  size_of_nvme_id_directives, size_of_nvme_streams_directive_params,
  size_of_nvme_streams_directive_status,
}

module _ (lib : Libnvme) where
  unfoldable pub nvme_directive_send_stream_release_identifier : ℤ → ℕ → ℕ → Call
  nvme_directive_send_stream_release_identifier fd nsid stream_id = nvme_directive_send (record {
    result = none;
    data_ptr = none;
    args_size = lib.size_of directive_send_args;
    fd = fd;
    timeout = nvme_default_ioctl_timeout;
    nsid = nsid;
    doper = nvme_directive_send_streams_doper_release_identifier;
    dtype = nvme_directive_dtype_streams;
    cdw12 = 0;
    data_len = 0;
    dspec = stream_id;
  })

  unfoldable pub nvme_directive_send_stream_release_resource : ℤ → ℕ → Call
  nvme_directive_send_stream_release_resource fd nsid = nvme_directive_send (record {
    result = none;
    data_ptr = none;
    args_size = lib.size_of directive_send_args;
    fd = fd;
    timeout = nvme_default_ioctl_timeout;
    nsid = nsid;
    doper = nvme_directive_send_streams_doper_release_resource;
    dtype = nvme_directive_dtype_streams;
    cdw12 = 0;
    data_len = 0;
    dspec = 0;
  })

  unfoldable pub nvme_directive_recv_identify_parameters : ℤ → ℕ → Option (List ℕ) → Call
  nvme_directive_recv_identify_parameters fd nsid buf = nvme_directive_recv (record {
    result = none;
    data_ptr = buf;
    args_size = lib.size_of directive_recv_args;
    fd = fd;
    timeout = nvme_default_ioctl_timeout;
    nsid = nsid;
    doper = nvme_directive_receive_identify_doper_param;
    dtype = nvme_directive_dtype_identify;
    cdw12 = 0;
    data_len = size_of_nvme_id_directives;
    dspec = 0;
  })

  unfoldable pub nvme_directive_recv_stream_parameters : ℤ → ℕ → Option (List ℕ) → Call
  nvme_directive_recv_stream_parameters fd nsid parms = nvme_directive_recv (record {
    result = none;
    data_ptr = parms;
    args_size = lib.size_of directive_recv_args;
    fd = fd;
    timeout = nvme_default_ioctl_timeout;
    nsid = nsid;
    doper = nvme_directive_receive_streams_doper_param;
    dtype = nvme_directive_dtype_streams;
    cdw12 = 0;
    data_len = size_of_nvme_streams_directive_params;
    dspec = 0;
  })

  unfoldable pub nvme_directive_recv_stream_status : ℤ → ℕ → ℕ → Option (List ℕ) → Option Call
  nvme_directive_recv_stream_status fd nsid nr_entries buf =
      if ltb nvme_stream_id_max nr_entries
      then none
      else some (
          nvme_directive_recv (record {
            result = none;
            data_ptr = buf;
            args_size = lib.size_of directive_recv_args;
            fd = fd;
            timeout = nvme_default_ioctl_timeout;
            nsid = nsid;
            doper = nvme_directive_receive_streams_doper_status;
            dtype = nvme_directive_dtype_streams;
            cdw12 = 0;
            data_len = (size_of_nvme_streams_directive_status + nr_entries * 2) % 2 ^ 32;
            dspec = 0;
          }))

  unfoldable pub nvme_directive_recv_stream_allocate : ℤ → ℕ → ℕ → Option ℕ → Call
  nvme_directive_recv_stream_allocate fd nsid nsr result = nvme_directive_recv (record {
    result = result;
    data_ptr = none;
    args_size = lib.size_of directive_recv_args;
    fd = fd;
    timeout = nvme_default_ioctl_timeout;
    nsid = nsid;
    doper = nvme_directive_receive_streams_doper_resource;
    dtype = nvme_directive_dtype_streams;
    cdw12 = nsr;
    data_len = 0;
    dspec = 0;
  })
