-- ===== src/Api/DeepCopy/Heap.antt =====
-- Go's memory: cells at addresses, and the calls that read and write them. An address that is not
-- nil is below `next` once it is given out.
use gateway_orchestrator.Prelude.{
  ◌≡◌, ℕ, suc, Option, none, some, Exec, ok, err, eqb, if◌then◌else◌,
}

pub record Heap (Cell : Type 0) : Type 0 where
  pub next : ℕ
  pub cell : ℕ → Option Cell

-- A read through nil or through an address that holds no such value.
pub data Panic : Type 0 where
  nil_dereference : Panic

abbrev pub Go : Type 0 → Type 0 → Type 0
Go Cell A = Exec (Heap Cell) Panic A

-- How a cell holds a value of a type.
pub record Stored (Cell T : Type 0) : Type 0 where
  pub box : T → Cell
  pub unbox : Cell → Option T
  pub unbox_box : (t : T) → unbox (box t) ≡ some t

abbrev pub write : {Cell : Type 0} → Heap Cell → ℕ → Cell → Heap Cell
write h p c = record h { cell = λ q. if eqb p q then some c else h.cell q }

module _ {Cell T : Type 0} where
  -- `*p`
  unfoldable pub load : Stored Cell T → ℕ → Go Cell T
  load cells p h = elim (h.cell p) [
    | none ↦ (err nil_dereference, h)
    | some c ↦ elim (cells.unbox c) [ none ↦ (err nil_dereference, h) | some t ↦ (ok t, h) ]
  ]

  -- `*p = t`
  unfoldable pub store : Stored Cell T → ℕ → T → Go Cell (Unit {0})
  store cells p t h = (ok tt, write h p (cells.box t))

-- The address of `new` and of `make`; what they put there is overwritten before it is read.
unfoldable pub reserve : {Cell : Type 0} → Go Cell ℕ
reserve h = (ok h.next, record h { next = suc h.next })
