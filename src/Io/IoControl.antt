-- ===== src/Io/IoControl.antt =====
-- libnvme/src/io.rs, `IoControl`: the control-flag bits of CDW12.
use libnvme_rs.Base.{ℕ, ◌^◌}

abbrev pub dtype_streams : ℕ
dtype_streams = 2 ^ 4

abbrev pub nsz : ℕ
nsz = 2 ^ 7

abbrev pub stc : ℕ
stc = 2 ^ 8

abbrev pub deac : ℕ
deac = 2 ^ 9

abbrev pub prinfo_prchk_ref : ℕ
prinfo_prchk_ref = 2 ^ 10

abbrev pub prinfo_prchk_app : ℕ
prinfo_prchk_app = 2 ^ 11

abbrev pub prinfo_prchk_guard : ℕ
prinfo_prchk_guard = 2 ^ 12

abbrev pub prinfo_pract : ℕ
prinfo_pract = 2 ^ 13

abbrev pub fua : ℕ
fua = 2 ^ 14

abbrev pub lr : ℕ
lr = 2 ^ 15
