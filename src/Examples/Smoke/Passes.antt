-- ===== src/Examples/Smoke/Passes.antt =====
-- io_smoke of libnvme/examples on a device that stores blocks.
use libnvme_rs.Base.{
  ℕ, zero, suc, ◌*◌, ◌^◌, ◌<◌, ◌≡◌, refl, ap, ℤ, true, List, length, replicate, arith, wrap_ℤ,
}
use libnvme_rs.Error.{ok}
use libnvme_rs.Ffi.{Libnvme, Call}
use libnvme_rs.Namespace.{Namespace, lba_size}
use libnvme_rs.Io.Commands.{
  write_execute, compare_execute, verify_execute, write_zeroes_execute, flush,
}
use libnvme_rs.Io.RangeCommands.{dsm_execute}
use libnvme_rs.Io.ReadToVec.{read_to_vec}
use libnvme_rs.Storage.{StoresBlocks}
use libnvme_rs.Storage.ReadBack.{read_to_vec-after_write, read_to_vec-after_zeroes}
use libnvme_rs.Tree.Fields.{TreeFields}
use libnvme_rs.Tree.NamespaceText
use libnvme_rs.Examples.Program.{◌>>=◌, ◌>>◌, run, assert, Program, Exit}
use libnvme_rs.Examples.Program.Laws.{
  IsFatal, Avoids, run->>=, assert->>=, run-Avoids, question-Avoids, >>=-Avoids,
}
use libnvme_rs.Examples.Text.{bytes_eq, bytes_eq_refl, all_zero}
use libnvme_rs.Examples.Smoke.{
  pattern_from, write_pattern, compare_pattern, first_block, trim_first, exercise,
}

length-pattern_from : (i n : ℕ) → length (pattern_from i n) ≡ n
unfolding pattern_from
length-pattern_from i zero = refl
length-pattern_from i (suc n) = ap suc (length-pattern_from (suc i) n)

all_zero-replicate : (n : ℕ) → all_zero (replicate n 0) ≡ true
unfolding all_zero
all_zero-replicate zero = refl
all_zero-replicate (suc n) = all_zero-replicate n

lba_size-lt : (lib : Libnvme) (ns : Namespace) → lba_size lib ns < 2 ^ 32
unfolding lba_size
lba_size-lt lib ns = go (lib.ns_get_lba_size ns.inner)
  where
    go : (z : ℤ) → wrap_ℤ 32 z < 2 ^ 32
    go z = ground arith

module _ (lib : Libnvme) (fields : TreeFields) (device : StoresBlocks lib) {e : Exit}
    (fatal : IsFatal e) (ns : Namespace) where
  abbrev pattern : List ℕ
  pattern = pattern_from 0 (lba_size lib ns)

  pattern_read :
      (t t1 : List Call) {r : ℕ} {got : List ℕ} {t2 : List Call}
      → write_execute lib (write_pattern ns pattern) t ≡ (ok r, t1)
      → read_to_vec lib ns 0 1 t1 ≡ (ok got, t2)
      → bytes_eq got pattern ≡ true
  pattern_read t t1 written read =
      let same =
        read_to_vec-after_write lib device (write_pattern ns pattern) t
          (omega (arith, length-pattern_from 0 (lba_size lib ns), lba_size-lt lib ns)) written
          read in
      rw same (bytes_eq_refl pattern)

  zeros_read :
      (t t1 : List Call) {r : ℕ} {got : List ℕ} {t2 : List Call}
      → write_zeroes_execute lib (first_block ns) t ≡ (ok r, t1)
      → read_to_vec lib ns 0 1 t1 ≡ (ok got, t2)
      → all_zero got ≡ true
  zeros_read t t1 zeroed read =
      let same =
        read_to_vec-after_zeroes lib device (first_block ns) t refl
          (omega (arith, lba_size-lt lib ns)) zeroed read in
      rw same (all_zero-replicate (1 * lba_size lib ns))

  -- io_smoke in pieces, from the last one on.
  abbrev trimming : Program (Unit {0})
  trimming = do _ ← run (dsm_execute lib (trim_first ns)); run (flush lib ns)

  abbrev checking_zeroes : List ℕ → Program (Unit {0})
  checking_zeroes zeroed = do assert (all_zero zeroed); trimming

  abbrev zeroing : Program (Unit {0})
  zeroing = do
    _ ← run (write_zeroes_execute lib (first_block ns))
    zeroed ← run (read_to_vec lib ns 0 1)
    checking_zeroes zeroed

  abbrev comparing : Program (Unit {0})
  comparing = do
    _ ← run (compare_execute lib (compare_pattern ns pattern))
    _ ← run (verify_execute lib (first_block ns))
    zeroing

  abbrev checking_pattern : List ℕ → Program (Unit {0})
  checking_pattern got = do assert (bytes_eq got pattern); comparing

  trimming-Avoids : Avoids e trimming
  trimming-Avoids =
      >>=-Avoids (run-Avoids fatal (dsm_execute lib (trim_first ns)))
        (λ _. run-Avoids fatal (flush lib ns))

  zeroing-Avoids : Avoids e zeroing
  zeroing-Avoids = record {
    avoids = λ t.
        run->>= (write_zeroes_execute lib (first_block ns))
          (λ _. run (read_to_vec lib ns 0 1) >>= checking_zeroes) t fatal
          λ _ t1 zeroed. run->>= (read_to_vec lib ns 0 1) checking_zeroes t1 fatal λ got t2 read.
            assert->>= (all_zero got) (λ _. trimming) t2 (zeros_read t t1 zeroed read)
              (trimming-Avoids.avoids t2);
  }

  comparing-Avoids : Avoids e comparing
  comparing-Avoids =
      >>=-Avoids (run-Avoids fatal (compare_execute lib (compare_pattern ns pattern))) (λ _.
        >>=-Avoids (run-Avoids fatal (verify_execute lib (first_block ns))) (λ _. zeroing-Avoids))

  writing-Avoids : Avoids e (
      run (write_execute lib (write_pattern ns pattern)) >>= λ _.
      run (read_to_vec lib ns 0 1) >>= checking_pattern)
  writing-Avoids = record {
    avoids = λ t.
        run->>= (write_execute lib (write_pattern ns pattern))
          (λ _. run (read_to_vec lib ns 0 1) >>= checking_pattern) t fatal
          λ _ t1 written. run->>= (read_to_vec lib ns 0 1) checking_pattern t1 fatal λ got t2 read.
            assert->>= (bytes_eq got pattern) (λ _. comparing) t2 (pattern_read t t1 written read)
              (comparing-Avoids.avoids t2);
  }

  pub exercise-Avoids : Avoids e (exercise lib fields ns)
  unfolding exercise
  exercise-Avoids =
      >>=-Avoids (question-Avoids fatal (NamespaceText.name fields ns)) (λ _. writing-Avoids)
