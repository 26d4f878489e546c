-- ===== src/Api/DeepCopy/Linked.antt =====
-- Values that hold addresses, what is read through them, and copies that share no memory.
use gateway_orchestrator.Prelude.{◌≡◌, ℕ, ◌≤◌, ◌<◌}
use gateway_orchestrator.Prelude.Running.{Runs}
use gateway_orchestrator.Api.DeepCopy.Heap.{Heap, Go}

-- The two memories hold the same from the first address to before the second.
abbrev pub Agree : {Cell : Type 0} → ℕ → ℕ → Heap Cell → Heap Cell → Type 0
Agree lo hi g h = (p : ℕ) → lo ≤ p → p < hi → g.cell p ≡ h.cell p

-- `R lo hi h x v`: in the memory h the value x reads as v, and all addresses that this follows
-- are from lo to before hi.
abbrev pub Reading : Type 0 → Type 0 → Type 0 → Type 1
Reading Cell Held Seen = ℕ → ℕ → Heap Cell → Held → Seen → Type 0

-- The copy reads as v through addresses that are new, and the memory that was there is as it was.
pub record Copied {Cell Held Seen : Type 0} (R : Reading Cell Held Seen) (v : Seen) (h : Heap Cell)
    (copy : Held) (h' : Heap Cell) : Type 0 where
  pub grows : h.next ≤ h'.next
  pub kept : Agree 0 h.next h' h
  pub reads : R h.next h'.next h' copy v

-- A type with its reading and its DeepCopyInto, from the value that is read to the value that is
-- written to `*out`.
pub record Linked (Cell : Type 0) : Type 1 where
  pub Held : Type 0
  pub Seen : Type 0
  pub Reads : Reading Cell Held Seen
  pub carry :
      {lo hi lo' hi' : ℕ} (g h : Heap Cell) (x : Held) (v : Seen)
      → lo' ≤ lo
      → hi ≤ hi'
      → Agree lo hi g h
      → Reads lo hi h x v
      → Reads lo' hi' g x v
  pub copy : Held → Go Cell Held
  pub copied :
      (h : Heap Cell) (x : Held) (v : Seen)
      → Reads 0 h.next h x v
      → Runs (copy x) h (λ x' h'. Copied Reads v h x' h')
