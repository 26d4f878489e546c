-- ===== src/Pool/Bounds.antt =====
-- The indices that `GetNextGatewayIndex` reads and returns, as 64-bit integers.
use Prim.Native.String
use gateway_orchestrator.Prelude.{
  ℕ, zero, suc, ◌+◌, ◌-◌, ◌^◌, ◌<◌, ◌≡◌, refl, Bool, true, false, Option, none, some, List, [], ◌∷◌,
  ok, arith, ◌⊎◌, inl, inr, Option-cases, Bool-cases, ltb,
}
use gateway_orchestrator.Go.Int.{ℤ, pos, negsuc, int_succ}
use gateway_orchestrator.Go.Format.{int_of, scan_number, scan_signed, scan_int, scan_gateway_index}
use gateway_orchestrator.Go.Strings.{cut_prefix}
use gateway_orchestrator.Api.Cluster.{Gateway}
use gateway_orchestrator.Services.{Services, Library}
use gateway_orchestrator.Pool.Defs.{Pool, larger, max_index, get_next_gateway_index}

int_of-bound : (minus : Bool) (o : Option ℕ) (n : ℕ) → int_of minus o ≡ some (pos n) → n < 2 ^ 63
int_of-bound minus none n h = absurd (cc)
int_of-bound false (some m) n h = ground arith
int_of-bound true (some zero) n h = ground arith
int_of-bound true (some (suc m)) n h = absurd (ground arith)

scan_signed-bound : (s : String.String) (n : ℕ) → scan_signed s ≡ some (pos n) → n < 2 ^ 63
unfolding scan_signed
scan_signed-bound String.[] n h = absurd (cc)
scan_signed-bound (String.◌∷◌ c s) n h = ground (
  arith,
  int_of-bound true (scan_number s) n,
  int_of-bound false (scan_number s) n,
  int_of-bound false (scan_number (String.◌∷◌ c s)) n,
)

scan_int-bound : (s : String.String) (n : ℕ) → scan_int s ≡ some (pos n) → n < 2 ^ 63
unfolding scan_int
scan_int-bound String.[] n h = absurd (cc)
scan_int-bound (String.◌∷◌ c s) n h =
    ground (arith, scan_int-bound s n, scan_signed-bound (String.◌∷◌ c s) n)

scan_gateway_index-bound :
    (s : String.String) (n : ℕ) → scan_gateway_index s ≡ some (pos n) → n < 2 ^ 63
unfolding scan_gateway_index
scan_gateway_index-bound s n h = elim (Option-cases (cut_prefix "gw-" s)) [
  | inl e ↦ absurd (ground arith)
  | inr (rest, e) ↦ scan_int-bound rest n (ground arith)
]

-- A gateway of the list has this index in its name.
pub data HasIndex (n : ℕ) : List Gateway → Type 0 where
  here :
      (gw : Gateway) (items : List Gateway)
      → scan_gateway_index gw.name ≡ some (pos n)
      → HasIndex n (gw ∷ items)
  there : (gw : Gateway) (items : List Gateway) → HasIndex n items → HasIndex n (gw ∷ items)

larger-cases : (m : ℕ) (o : Option ℤ) → (larger m o ≡ m) ⊎ (o ≡ some (pos (larger m o)))
unfolding larger
larger-cases m none = inl refl
larger-cases m (some (pos n)) = ground arith
larger-cases m (some (negsuc n)) = inl refl

-- The loop leaves what it began with or an index that it has read.
max_index-HasIndex :
    (m : ℕ) (items : List Gateway) → (max_index m items ≡ m) ⊎ HasIndex (max_index m items) items
unfolding max_index
max_index-HasIndex m [] = inl refl
max_index-HasIndex m (gw ∷ items) =
    let m' = larger m (scan_gateway_index gw.name) in
    elim (max_index-HasIndex m' items) [
      | inr h ↦ inr (there gw items h)
      | inl e ↦ elim (larger-cases m (scan_gateway_index gw.name)) [
        | inl same ↦ inl (cc (e, same))
        | inr found ↦ inr (here gw items (cc (e, found)))
      ]
    ]

HasIndex-bound : (n : ℕ) (items : List Gateway) → HasIndex n items → n < 2 ^ 63
HasIndex-bound n [] h = elim h [ ]
HasIndex-bound n (gw ∷ items) (here _ _ h) = scan_gateway_index-bound gw.name n h
HasIndex-bound n (gw ∷ items) (there _ _ h) = HasIndex-bound n items h

-- The index is in an `int`'s range and positive, or it has wrapped to the smallest `int`.
abbrev pub InRange : List Gateway → ℤ → Type 0
InRange items i =
    ((n : ℕ) × (i ≡ pos n) × (0 < n) × (n < 2 ^ 63))
    ⊎ ((i ≡ negsuc (2 ^ 63 - 1)) × HasIndex (2 ^ 63 - 1) items)

lt-max_index : (items : List Gateway) → max_index 0 items < 2 ^ 63
lt-max_index items = elim (max_index-HasIndex 0 items) [
  | inl e ↦ rw e (omega arith)
  | inr h ↦ HasIndex-bound (max_index 0 items) items h
]

succ-InRange : (items : List Gateway) → InRange items (int_succ (max_index 0 items))
succ-InRange items = elim (max_index-HasIndex 0 items) [
  | inl e ↦ rw e (inl (1, refl, omega arith, omega arith))
  | inr h ↦ elim (Bool-cases (ltb (max_index 0 items + 1) (2 ^ 63))) [
    | inl fits ↦ inl (max_index 0 items + 1, ground arith, omega arith, ground arith)
    | inr wraps ↦
        let top : max_index 0 items ≡ 2 ^ 63 - 1 = ground (arith, lt-max_index items) in
        inr (ground arith, rw top at h)
  ]
]

module _ {W : Type 0} (lib : Library) (sv : Services W) (p : Pool) where
  -- Where the gateways can be listed, whatever their names, `GetNextGatewayIndex` returns an index
  -- from 1 to 2^63 - 1, with one exception: where a gateway's name holds the index 2^63 - 1, the
  -- largest that `Sscanf` reads into an `int`, the sum wraps to -2^63.
  pub get_next_gateway_index-InRange :
      (w : W) {w' : W} (items : List Gateway)
      → sv.list_gateways p.namespace w ≡ (ok items, w')
      → (i : ℤ) × (get_next_gateway_index lib sv p w ≡ (ok i, w')) × InRange items i
  unfolding get_next_gateway_index
  get_next_gateway_index-InRange w items listed =
      (int_succ (max_index 0 items), ground arith, succ-InRange items)
