-- ===== src/RingQueue/View.antt =====
-- A ring queue by what comes out of it: two queues are the same if pop_head returns the same from
-- both in every history of calls of pop_head and insert_tail, qemu-fpga-char/virtine_fpga.c:626-667.
-- The pointer that insert_tail returns, which no caller uses, says where in the buffer an element
-- went: it is not compared.
use linux_pcie_dma.Common.{
  ℕ, zero, suc, ◌+◌, ◌<◌, ◌≤◌, ◌≡◌, refl, sym, ap, ◌∙◌, ◌↔◌, List, [], ◌∷◌, ◌++◌, arith, All,
  length, length-append,
}
use mathlib.Core.List.{append-nil, append_assoc}
use mathlib.Core.Quot
use mathlib.Core.Quot.{Quot, Quot-set}
use native.Mathlib.Nat.{ℕ_set}
use native.Mathlib.Bridge.{le_prop}
use linux_pcie_dma.Registers.{num_possible_virtines}
use linux_pcie_dma.Fifo
use linux_pcie_dma.Fifo.{Fifo, Nonzero}
use linux_pcie_dma.RingQueue.{VirtineRingQueue, pop_head, insert_tail}
use linux_pcie_dma.RingQueue.Invariant.{Represents}
use linux_pcie_dma.RingQueue.Pop.{pop_head_refines}
use linux_pcie_dma.RingQueue.Insert.{insert_tail_refines}
use linux_pcie_dma.RingQueue.Run.{Call, pops, run, run_fifo, InsertsNonzero, run_refines}

-- A queue, with the addresses that it holds.
pub record Ring : Type 0 where
  pub queue : VirtineRingQueue
  pub contents : Fifo
  pub represents : Represents queue contents

-- In every history of calls the pops return the same from both queues.
abbrev pub SamePops : Ring → Ring → Type 0
SamePops a b =
    (calls : List Call) → All InsertsNonzero calls → run a.queue calls ≡ run b.queue calls

abbrev pops_only : ℕ → List Call
pops_only zero = []
pops_only (suc n) = pops ∷ pops_only n

pops_only-All : (n : ℕ) → All InsertsNonzero (pops_only n)
pops_only-All zero = tt
pops_only-All (suc n) = (tt, pops_only-All n)

-- Popping long enough shows all the addresses.
pops_only_lem :
    (n : ℕ) (xs ys : Fifo)
    → length xs < n
    → length ys < n
    → Nonzero xs
    → Nonzero ys
    → run_fifo xs (pops_only n) ≡ run_fifo ys (pops_only n)
    → xs ≡ ys
unfolding run_fifo Fifo.pop
pops_only_lem zero xs ys f g p q e = absurd (omega arith)
pops_only_lem (suc n) [] [] f g p q e = refl
pops_only_lem (suc n) [] (y ∷ ys) f g p q e = absurd (ground arith)
pops_only_lem (suc n) (x ∷ xs) [] f g p q e = absurd (ground arith)
pops_only_lem (suc n) (x ∷ xs) (y ∷ ys) f g p q e =
    let rest = pops_only_lem n xs ys (omega arith) (omega arith) p.1 q.1 (cc) in cc

-- From two ring queues that hold addresses of virtines the pops of every history of pops and of
-- inserts of addresses return the same exactly if the queues hold the same addresses in the same
-- order, wherever in their buffers these are. The pointers that insert_tail returns are left out.
pub SamePops-iff : (a b : Ring) → SamePops a b ↔ (a.contents ≡ b.contents)
SamePops-iff a b = (
  λ h.
      let n = num_possible_virtines + 1 in
      let calls = pops_only n in
      pops_only_lem n a.contents b.contents (omega (arith, a.represents.stores.fits))
        (omega (arith, b.represents.stores.fits)) a.represents.nonzero b.represents.nonzero
        (sym (run_refines calls a.contents a.represents (pops_only-All n))
          ∙ h calls (pops_only-All n)
          ∙ run_refines calls b.contents b.represents (pops_only-All n)),
  λ e calls inserted.
      run_refines calls a.contents a.represents inserted
      ∙ ap (λ xs. run_fifo xs calls) e
      ∙ sym (run_refines calls b.contents b.represents inserted),
)

-- Ring queues up to what their pops return.
abbrev pub View : Type 0
View = Quot SamePops

View-set : IsSet View
View-set = Quot-set

pub Fifo-set : IsSet Fifo
Fifo-set = hlevel

abbrev pub contents : View → Fifo
contents = Quot.lift Fifo-set (λ a. a.contents) (λ a b h. (SamePops-iff a b).0 h)

-- The calls on rings, with the addresses that are then held.
abbrev popped : Ring → Ring
popped a = record {
  queue = (pop_head a.queue).1;
  contents = (Fifo.pop a.contents).1;
  represents = (pop_head_refines a.contents a.represents).1;
}

abbrev inserted : (x : ℕ) → 0 < x → Ring → Ring
inserted x pos a = record {
  queue = (insert_tail a.queue x).1;
  contents = Fifo.insert a.contents x;
  represents = (insert_tail_refines a.contents x a.represents pos).0;
}

popped_same : (a b : Ring) → SamePops a b → SamePops (popped a) (popped b)
popped_same a b h =
    (SamePops-iff (popped a) (popped b)).1 (ap (λ xs. (Fifo.pop xs).1) ((SamePops-iff a b).0 h))

inserted_same :
    (x : ℕ) (pos : 0 < x) (a b : Ring)
    → SamePops a b
    → SamePops (inserted x pos a) (inserted x pos b)
inserted_same x pos a b h =
    (SamePops-iff (inserted x pos a) (inserted x pos b)).1
      (ap (λ xs. Fifo.insert xs x) ((SamePops-iff a b).0 h))

value_same : (a b : Ring) → SamePops a b → (pop_head a.queue).0 ≡ (pop_head b.queue).0
value_same a b h =
    (pop_head_refines a.contents a.represents).0
    ∙ ap (λ xs. (Fifo.pop xs).0) ((SamePops-iff a b).0 h)
    ∙ sym (pop_head_refines b.contents b.represents).0

-- pop_head and insert_tail on a view; of insert_tail the queue that it leaves.
pub pop_value : View → ℕ
pop_value = Quot.lift ℕ_set (λ a. (pop_head a.queue).0) value_same

pub pop_rest : View → View
pop_rest = Quot.lift Quot-set (λ a. Quot.mk (popped a)) (λ a b h. Quot.sound (popped_same a b h))

pub insert : (x : ℕ) → 0 < x → View → View
insert x pos =
    Quot.lift Quot-set (λ a. Quot.mk (inserted x pos a))
      (λ a b h. Quot.sound (inserted_same x pos a b h))

-- A view is a FIFO, and the two calls are those of the FIFO.
contents-inj : (v w : View) → contents v ≡ contents w → v ≡ w
contents-inj =
    Quot.ind (λ v. hlevel View-set)
      (λ a. Quot.ind (λ w. hlevel View-set) (λ b e. Quot.sound ((SamePops-iff a b).1 e)))

pop_value_lem : (v : View) → pop_value v ≡ (Fifo.pop (contents v)).0
unfolding pop_value
pop_value_lem = Quot.ind (λ v. ℕ_set _ _) (λ a. (pop_head_refines a.contents a.represents).0)

contents-pop_rest : (v : View) → contents (pop_rest v) ≡ (Fifo.pop (contents v)).1
unfolding pop_rest
contents-pop_rest = Quot.ind (λ v. Fifo-set _ _) (λ a. refl)

contents-insert :
    (x : ℕ) (pos : 0 < x) (v : View) → contents (insert x pos v) ≡ Fifo.insert (contents v) x
unfolding insert
contents-insert x pos = Quot.ind (λ v. Fifo-set _ _) (λ a. refl)

-- The FIFOs that a ring queue can stand for.
abbrev pub Bounded : Fifo → Type 0
Bounded xs = Nonzero xs × (length xs ≤ num_possible_virtines)

filled : (v : View) (xs : Fifo) → Nonzero xs → View
filled v [] h = v
filled v (x ∷ xs) h = filled (insert x h.0 v) xs h.1

contents-filled :
    (v : View) (xs : Fifo) (h : Nonzero xs)
    → length (contents v) + length xs ≤ num_possible_virtines
    → contents (filled v xs h) ≡ contents v ++ xs
unfolding filled Fifo.insert
contents-filled v [] h f = sym (append-nil (contents v))
contents-filled v (x ∷ xs) h f =
    let one : contents (insert x h.0 v) ≡ contents v ++ (x ∷ []) =
      contents-insert x h.0 v ∙ ground arith in
    let room = ap length one ∙ length-append (contents v) (x ∷ []) in
    contents-filled (insert x h.0 v) xs h.1 (omega (arith, room))
    ∙ ap (λ l. l ++ xs) one
    ∙ append_assoc (contents v) (x ∷ []) xs

-- A view with contents `xs`.
abbrev pub Fiber : Fifo → Type 0
Fiber xs = (w : View) × (contents w ≡ xs)

Nonzero-IsProp : (xs : Fifo) → IsProp (Nonzero xs)
Nonzero-IsProp [] = hlevel
Nonzero-IsProp (x ∷ xs) = λ p q i. (le_prop p.0 q.0 i, Nonzero-IsProp xs p.1 q.1 i)

Bounded-IsProp : (xs : Fifo) → IsProp (Bounded xs)
Bounded-IsProp xs p q i = (Nonzero-IsProp xs p.0 q.0 i, le_prop p.1 q.1 i)

contents-Bounded : (v : View) → Bounded (contents v)
contents-Bounded =
    Quot.ind (λ v. Bounded-IsProp (contents v))
      (λ a. (a.represents.nonzero, a.represents.stores.fits))

-- The views, ring queues up to what their pops return, are one to one with the FIFOs of at most a
-- hundred nonzero addresses, if there is an empty ring queue to begin with: the contents of a view
-- are such a FIFO, and each such FIFO is the contents of one view and of no other. On a view
-- pop_head returns and leaves what the FIFO's pop does, and insert_tail of a nonzero address leaves
-- what the FIFO's insert does.
pub view_is_fifo :
    (empty : Ring) (w : View) (xs : Fifo) (x : ℕ) (pos : 0 < x)
    → empty.contents ≡ []
    → Bounded xs
    → Bounded (contents w)
      × (pop_value w ≡ (Fifo.pop (contents w)).0)
      × (contents (pop_rest w) ≡ (Fifo.pop (contents w)).1)
      × (contents (insert x pos w) ≡ Fifo.insert (contents w) x)
      × (v : View) × (contents v ≡ xs)
      × ((u : Fiber xs) → u.0 ≡ v)
view_is_fifo empty w xs x pos e h =
    let v = filled (Quot.mk empty) xs h.0 in
    let holds : contents v ≡ xs =
      contents-filled (Quot.mk empty) xs h.0 (omega (arith, ap length e, h.1))
      ∙ ap (λ l. l ++ xs) e in
    (
      contents-Bounded w,
      pop_value_lem w,
      contents-pop_rest w,
      contents-insert x pos w,
      v,
      holds,
      λ u. contents-inj u.0 v (u.1 ∙ sym holds),
    )
