-- ===== src/Pool/Index.antt =====
-- The index that `GetNextGatewayIndex` returns.
use gateway_orchestrator.Prelude.{
  ℕ, ◌+◌, ◌-◌, ◌^◌, ◌≤◌, ◌<◌, ◌≡◌, ◌≢◌, refl, ap, ◌∙◌, String, Option, none, some, List, [], ◌∷◌,
  ok, arith, All,
}
use gateway_orchestrator.Go.Int.{ℤ, pos, negsuc, int_succ}
use gateway_orchestrator.Go.Format.{scan_gateway_index}
use gateway_orchestrator.Go.Format.RoundTrip.{scan_gateway_index-name}
use gateway_orchestrator.Api.Cluster.{Gateway}
use gateway_orchestrator.Services.{Services, Library}
use gateway_orchestrator.Pool.Defs.{Pool, gateway_name, larger, max_index, get_next_gateway_index}

le-larger : (m : ℕ) (o : Option ℤ) → m ≤ larger m o
unfolding larger
le-larger m none = omega arith
le-larger m (some (pos n)) = ground arith
le-larger m (some (negsuc n)) = omega arith

le-larger-some : (m n : ℕ) → n ≤ larger m (some (pos n))
unfolding larger
le-larger-some m n = ground arith

max_index-cons :
    (m : ℕ) (gw : Gateway) (items : List Gateway)
    → max_index m (gw ∷ items) ≡ max_index (larger m (scan_gateway_index gw.name)) items
unfolding max_index
max_index-cons m gw items = refl

le-max_index : (m : ℕ) (items : List Gateway) → m ≤ max_index m items
le-max_index m [] = unfold max_index in omega arith
le-max_index m (gw ∷ items) = rw max_index-cons (
    omega (
      arith,
      le-larger m (scan_gateway_index gw.name),
      le-max_index (larger m (scan_gateway_index gw.name)) items,
    ))

-- No gateway's name holds an index above the bound.
abbrev pub IndexAtMost : ℕ → Gateway → Type 0
IndexAtMost m gw = (n : ℕ) → scan_gateway_index gw.name ≡ some (pos n) → n ≤ m

max_index_head :
    (m k : ℕ) (gw : Gateway) (items : List Gateway)
    → max_index m (gw ∷ items) ≤ k
    → IndexAtMost k gw
max_index_head m k gw items h n e =
    let read : max_index (larger m (some (pos n))) items ≤ k = rw (max_index-cons, e) at h in
    omega (arith, le-larger-some m n, le-max_index (larger m (some (pos n))) items)

max_index_bounds :
    (m k : ℕ) (items : List Gateway) → max_index m items ≤ k → All (IndexAtMost k) items
max_index_bounds m k [] h = tt
max_index_bounds m k (gw ∷ items) h = (
  max_index_head m k gw items h,
  max_index_bounds (larger m (scan_gateway_index gw.name)) k items (rw max_index-cons at h),
)

abbrev pub OtherName : String → Gateway → Type 0
OtherName name gw = gw.name ≢ name

other_names :
    (m : ℕ) (items : List Gateway)
    → m + 1 < 2 ^ 63
    → All (IndexAtMost m) items
    → All (OtherName (gateway_name (pos (m + 1)))) items
other_names m [] h a = tt
other_names m (gw ∷ items) h (bound, rest) = (
  λ e.
      absurd (
        omega (arith, bound (m + 1) (ap scan_gateway_index e ∙ scan_gateway_index-name (m + 1) h))),
  other_names m items h rest,
)

int_succ-small : (m : ℕ) → m + 1 < 2 ^ 63 → int_succ m ≡ pos (m + 1)
int_succ-small m h = ground arith

module _ {W : Type 0} (lib : Library) (sv : Services W) (p : Pool) where
  -- Where the list of gateways is read and the largest index in it is below 2^63 - 1,
  -- `GetNextGatewayIndex` returns an index whose name `gw-%02d` no gateway of the list has, and
  -- which is above every index that a name of the list holds.
  pub get_next_gateway_index-fresh :
      (w : W) {w' : W} (items : List Gateway)
      → sv.list_gateways p.namespace w ≡ (ok items, w')
      → max_index 0 items + 1 < 2 ^ 63
      → (n : ℕ) × (get_next_gateway_index lib sv p w ≡ (ok (pos n), w'))
        × All (OtherName (gateway_name (pos n))) items
        × All (IndexAtMost (n - 1)) items
  unfolding get_next_gateway_index
  get_next_gateway_index-fresh w items listed small =
      let m = max_index 0 items in
      let pred : m + 1 - 1 ≡ m = omega arith in
      (
        m + 1,
        ground (arith, int_succ-small m small),
        other_names m items small (max_index_bounds 0 m items (omega arith)),
        rw pred (max_index_bounds 0 m items (omega arith)),
      )
