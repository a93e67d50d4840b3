-- ===== src/Headers/Fields/Laws.antt =====
-- How `NVME_GET` and `NVME_SET` of libnvme-sys/vendored-headers/nvme/types.h relate.
use libnvme_rs.Base.{ℕ, ◌-◌, ◌/◌, ◌%◌, ◌^◌, ◌≡◌, bit_and_mask}
use libnvme_rs.Headers.Fields.{Field, nvme_get}

-- A field whose mask has `w` ones is the `w` digits from its shift on.
pub nvme_get_lem :
    (value : ℕ) (f : Field) (w : ℕ)
    → f.mask ≡ 2 ^ w - 1
    → nvme_get value f ≡ value / 2 ^ f.shift % 2 ^ w
unfolding nvme_get
nvme_get_lem value f w e = rw e (bit_and_mask w (value / 2 ^ f.shift))
