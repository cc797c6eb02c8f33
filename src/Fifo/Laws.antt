-- ===== src/Fifo/Laws.antt =====
-- Laws of the FIFO that a ring queue promises.
use linux_pcie_dma.Common.{
  ℕ, ◌≤◌, ◌<◌, ◌≡◌, ◌∙◌, sym, ap, List, [], ◌∷◌, ◌++◌, arith, length, take, take_all,
  take-append_of_le, length-append, All-append, Bool-cases, inl, inr,
}
use linux_pcie_dma.Registers.{num_possible_virtines}
use linux_pcie_dma.Fifo.{Fifo, Nonzero, has_room, pop, insert, insert_all}
use mathlib.Core.List.{append_assoc, append-nil}
use native.Mathlib.Decide.{dec_lt}

pub insert-room : (q : Fifo) (x : ℕ) → length q < num_possible_virtines → insert q x ≡ q ++ (x ∷ [])
unfolding insert
insert-room q x h = ground arith

pub insert-full : (q : Fifo) (x : ℕ) → length q ≡ num_possible_virtines → insert q x ≡ q
unfolding insert
insert-full q x h = ground arith

pub pop-Nonzero : (q : Fifo) → Nonzero q → Nonzero (pop q).1
unfolding pop
pop-Nonzero [] h = tt
pop-Nonzero (x ∷ q) h = h.1

pub insert-Nonzero : (q : Fifo) (x : ℕ) → Nonzero q → 0 < x → Nonzero (insert q x)
unfolding insert
insert-Nonzero q x h pos = elim (Bool-cases (has_room q)) [
  | inl room ↦ rw room (All-append (λ y. 0 < y) q (x ∷ []) h (pos, tt))
  | inr full ↦ rw full h
]

-- Inserting one address after another keeps the first hundred of them all.
pub insert_all-eq-take :
    (q : Fifo) (xs : List ℕ)
    → length q ≤ num_possible_virtines
    → insert_all q xs ≡ take num_possible_virtines (q ++ xs)
unfolding insert_all
insert_all-eq-take q [] h = rw append-nil (sym (take_all num_possible_virtines q h))
insert_all-eq-take q (x ∷ xs) h = elim (dec_lt (length q) num_possible_virtines) [
  | yes p ↦ rw (insert-room q x p) (
      insert_all-eq-take (q ++ (x ∷ [])) xs (omega (arith, length-append q (x ∷ [])))
      ∙ ap (take num_possible_virtines) (append_assoc q (x ∷ []) xs))
  | no p ↦ rw (insert-full q x (omega arith)) (
      insert_all-eq-take q xs h
      ∙ take-append_of_le num_possible_virtines q xs (omega arith)
      ∙ sym (take-append_of_le num_possible_virtines q (x ∷ xs) (omega arith)))
]
