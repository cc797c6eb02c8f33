-- ===== src/Driver/Irq/Bounds.antt =====
-- The handler's loop, fpga-char/fpga_char_main.c:219-234, over any bus: also one on which the
-- device cleans further virtines between the reads.
use linux_pcie_dma.Common.{
  ℕ, zero, suc, ◌+◌, ◌<◌, ◌≤◌, ◌≡◌, ◌↔◌, some, List, [], ◌∷◌, All, length, arith,
}
use linux_pcie_dma.Registers.Driver
use linux_pcie_dma.Registers.Driver.{cq_head_offset_reg}
use linux_pcie_dma.Driver.{Mmio}
use linux_pcie_dma.Driver.Chardev.{store_words, fpga_char_read_kernel}
use linux_pcie_dma.Driver.Irq.{fetch_while, fetch_clean_virtines}

-- The stores `clean_virtines[i] = x` for the elements of a list.
abbrev pub numbered : ℕ → List ℕ → List (ℕ × ℕ)
numbered i [] = []
numbered i (x ∷ xs) = (i, x) ∷ numbered (i + 1) xs

-- Every store is into the array.
abbrev pub Inside : List (ℕ × ℕ) → Type 0
Inside stores = All (λ store. store.0 < Driver.num_possible_virtines) stores

pub numbered-Inside :
    (i : ℕ) (xs : List ℕ) → i + length xs ≤ Driver.num_possible_virtines → Inside (numbered i xs)
numbered-Inside i [] h = tt
numbered-Inside i (x ∷ xs) h = (omega arith, numbered-Inside (i + 1) xs (omega arith))

Inside-numbered :
    (i : ℕ) (xs : List ℕ)
    → i ≤ Driver.num_possible_virtines
    → Inside (numbered i xs)
    → i + length xs ≤ Driver.num_possible_virtines
Inside-numbered i [] l h = omega arith
Inside-numbered i (x ∷ xs) l h = omega (arith, Inside-numbered (i + 1) xs (omega (arith, h.0)) h.1)

module _ {S : Type 0} (bus : Mmio S) where
  -- Read again and again, the head of the completed queue gives these addresses and then 0.
  pub data Serves : S → List ℕ → S → Type 0 where
    dry :
        {s after : S} {words : List (ℕ × ℕ)}
        → fpga_char_read_kernel bus 3 s 8 cq_head_offset_reg ≡ some (8, words, after)
        → ((old : ℕ) → store_words old words ≡ 0)
        → Serves s [] after
    next :
        {s middle after : S} {words : List (ℕ × ℕ)} {v : ℕ} {clean : List ℕ}
        → fpga_char_read_kernel bus 3 s 8 cq_head_offset_reg ≡ some (8, words, middle)
        → ((old : ℕ) → store_words old words ≡ v)
        → 0 < v
        → Serves middle clean after
        → Serves s (v ∷ clean) after

  pub fetch_while_stop :
      (fuel : ℕ) (s after : S) (old i : ℕ) (words : List (ℕ × ℕ))
      → fpga_char_read_kernel bus 3 s 8 cq_head_offset_reg ≡ some (8, words, after)
      → store_words old words ≡ 0
      → fetch_while bus (suc fuel) s old i ≡ some ([], after)
  unfolding fetch_while
  fetch_while_stop fuel s after old i words e z = ground arith

  pub fetch_while_round :
      (fuel : ℕ) (s middle after : S) (old i v : ℕ) (words stores : List (ℕ × ℕ))
      → fpga_char_read_kernel bus 3 s 8 cq_head_offset_reg ≡ some (8, words, middle)
      → store_words old words ≡ v
      → 0 < v
      → fetch_while bus fuel middle v (i + 1) ≡ some (stores, after)
      → fetch_while bus (suc fuel) s old i ≡ some ((i, v) ∷ stores, after)
  unfolding fetch_while
  fetch_while_round fuel s middle after old i v words stores e w pos loop = ground arith

  fetch_while_served :
      (fuel : ℕ) (s after : S) (old i : ℕ) (clean : List ℕ)
      → Serves s clean after
      → length clean < fuel
      → fetch_while bus fuel s old i ≡ some (numbered i clean, after)
  fetch_while_served zero s after old i clean served h = absurd (omega arith)
  fetch_while_served (suc fuel) s after old i _ (dry read value) h =
      fetch_while_stop fuel s after old i _ read (value old)
  fetch_while_served (suc fuel) s after old i (v ∷ clean) (next read value pos served) h =
      fetch_while_round fuel s _ after old i v _ (numbered (i + 1) clean) read (value old) pos
        (fetch_while_served fuel _ after v (i + 1) clean served (omega arith))

  -- On any bus that gives some addresses at the head of the completed queue and then 0, whatever
  -- happens between the reads, the handler ends and stores them all, in order, in consecutive
  -- elements. It stays inside its array exactly if they are at most a hundred: nothing stops it
  -- there.
  pub fetch_clean_virtines_bounds :
      (fuel : ℕ) (s after : S) (clean : List ℕ)
      → Serves s clean after
      → length clean < fuel
      → (fetch_clean_virtines bus fuel s ≡ some (numbered 0 clean, after))
        × (Inside (numbered 0 clean) ↔ (length clean ≤ Driver.num_possible_virtines))
  unfolding fetch_clean_virtines
  fetch_clean_virtines_bounds fuel s after clean served h = (
    fetch_while_served fuel s after 0 0 clean served h,
    (
      λ inside. omega (arith, Inside-numbered 0 clean (omega arith) inside),
      λ small. numbered-Inside 0 clean (omega arith),
    ),
  )
