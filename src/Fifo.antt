-- ===== src/Fifo.antt =====
-- What a ring queue promises: a first-in first-out queue of at most 100 virtine addresses, oldest
-- first. Popping an empty queue answers 0; inserting into a full one changes nothing.
pub mod Laws
use linux_pcie_dma.Common.{ℕ, ◌<◌, Bool, List, [], ◌∷◌, ◌++◌, ltb, if◌then◌else◌, length, All}
use linux_pcie_dma.Registers.{num_possible_virtines}

abbrev pub Fifo : Type 0
Fifo = List ℕ

unfoldable pub pop : Fifo → ℕ × Fifo
pop [] = (0, [])
pop (x ∷ q) = (x, q)

abbrev pub has_room : Fifo → Bool
has_room q = ltb (length q) num_possible_virtines

unfoldable pub insert : Fifo → ℕ → Fifo
insert q x = if has_room q then q ++ (x ∷ []) else q

unfoldable pub insert_all : Fifo → List ℕ → Fifo
insert_all q [] = q
insert_all q (x ∷ xs) = insert_all (insert q x) xs

-- Addresses of virtines are never 0, the value that stands for "nothing left".
abbrev pub Nonzero : List ℕ → Type 0
Nonzero = All (λ x. 0 < x)
