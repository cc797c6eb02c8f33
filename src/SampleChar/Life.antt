-- ===== src/SampleChar/Life.antt =====
-- The sample module from its init to its exit, sample-char/sample_char.c:38-60.
use linux_pcie_dma.Common.{ℕ, ◌≡◌, refl, ◌∙◌, List, [], ◌∷◌, arith, ℤ, is_below}
use linux_pcie_dma.SampleChar.{
  SampleChar, sample_char_init, sample_char_exit, sample_char_open, sample_char_release,
  sample_char_read, sample_char_write, sample_char_llseek,
}
use linux_pcie_dma.SampleChar.Queue.{
  FileOperation, opens, releases, seeks, reads, writes, perform, run,
}

module _ (msg_at : ℕ) {M : Type 0} (copy_to_user : M → (to from count : ℕ) → ℕ × M)
    (copy_from_user : M → (from count : ℕ) → ℕ × List ℕ) where
  perform-major_num :
      (op : FileOperation) (s : SampleChar) (memory : M)
      → (perform msg_at copy_to_user copy_from_user op (s, memory)).0.major_num ≡ s.major_num
  unfolding perform sample_char_open sample_char_release sample_char_llseek sample_char_read
      sample_char_write
  perform-major_num opens s memory = refl
  perform-major_num releases s memory = refl
  perform-major_num seeks s memory = refl
  perform-major_num (reads buffer count) s memory = ground arith
  perform-major_num (writes buffer count) s memory = ground arith

  run-major_num :
      (ops : List FileOperation) (s : SampleChar) (memory : M)
      → (run msg_at copy_to_user copy_from_user ops (s, memory)).0.major_num ≡ s.major_num
  unfolding run
  run-major_num [] s memory = refl
  run-major_num (op ∷ ops) s memory =
      let (s', memory') = perform msg_at copy_to_user copy_from_user op (s, memory) in
      run-major_num ops s' memory' ∙ perform-major_num op s memory

  sample_char_init-major_num :
      (registered : ℤ) (s : SampleChar) → (sample_char_init registered s).1.major_num ≡ registered
  unfolding sample_char_init
  sample_char_init-major_num registered s = ground arith

  -- The init succeeds, with 0, exactly if register_chrdev answers no negative number, and passes its
  -- answer on otherwise. Whatever file operations follow, the exit unregisters the number answered.
  sample_char_exit_lem :
      (registered : ℤ) (ops : List FileOperation) (s : SampleChar) (memory : M)
      → let (error, loaded) = sample_char_init registered s in
        (is_below error 0 ≡ is_below registered 0)
        × (sample_char_exit (run msg_at copy_to_user copy_from_user ops (loaded, memory)).0
            ≡ registered)
  unfolding sample_char_init sample_char_exit
  sample_char_exit_lem registered ops s memory = (
    ground arith,
    run-major_num ops (sample_char_init registered s).1 memory
        ∙ sample_char_init-major_num registered s,
  )
