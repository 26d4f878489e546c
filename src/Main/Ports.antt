-- ===== src/Main/Ports.antt =====
-- From the port flags to the listeners of a gateway.
use gateway_orchestrator.Prelude.{
  ℕ, ◌%◌, ◌^◌, ◌<◌, ◌≡◌, refl, String, List, [], ◌∷◌, arith, ltb, Bool-cases, inl, inr,
  if◌then◌else◌, All,
}
use gateway_orchestrator.Go.Int.{ℤ, pos, negsuc, is_zero, to_int32}
use gateway_orchestrator.Api.Cluster.{Listener}
use gateway_orchestrator.Pool.{new_pool}
use gateway_orchestrator.Pool.Defs.{new_gateway}
use gateway_orchestrator.Main.{Flags, gateway_pool}

-- A number between -2^31 and 2^31 - 1.
abbrev pub IsInt32 : ℤ → Type 0
IsInt32 (pos n) = n < 2 ^ 31
IsInt32 (negsuc n) = n < 2 ^ 31

-- One that is not 0.
abbrev pub IsPort : ℤ → Type 0
IsPort (pos n) = (0 < n) × (n < 2 ^ 31)
IsPort (negsuc n) = n < 2 ^ 31

to_int32-IsInt32 : (z : ℤ) → IsInt32 (to_int32 z)
unfolding to_int32
to_int32-IsInt32 (pos n) = elim (Bool-cases (ltb (n % 2 ^ 32) (2 ^ 31))) [
  | inl e ↦ rw e (ground arith)
  | inr e ↦ rw e (ground arith)
]
to_int32-IsInt32 (negsuc n) = elim (Bool-cases (ltb (n % 2 ^ 32) (2 ^ 31))) [
  | inl e ↦ rw e (ground arith)
  | inr e ↦ rw e (ground arith)
]

-- `NewPool`'s treatment of a port.
abbrev or_default : ℕ → ℤ → ℤ
or_default d z = if is_zero z then pos d else z

or_default-IsPort : (d : ℕ) (z : ℤ) → 0 < d → d < 2 ^ 31 → IsInt32 z → IsPort (or_default d z)
or_default-IsPort d (pos n) h k i = elim (Bool-cases (ltb n 1)) [
  | inl e ↦ rw e (h, k)
  | inr e ↦ rw e (ground arith, i)
]
or_default-IsPort d (negsuc n) h k i = i

to_int32_small : (n : ℕ) → n < 2 ^ 31 → to_int32 (pos n) ≡ pos n
unfolding to_int32
to_int32_small n h = ground arith

or_default_small : (d n : ℕ) → 0 < n → or_default d (pos n) ≡ pos n
or_default_small d n h = ground arith

abbrev pub ports : List Listener → List ℤ
ports [] = []
ports (l ∷ ls) = l.port ∷ ports ls

ports_of :
    (flags : Flags) (visibility waf_arn : String) (index : ℤ)
    → ports (new_gateway (gateway_pool flags) visibility waf_arn index).listeners
      ≡ or_default 443 (to_int32 flags.https_port) ∷ or_default 80 (to_int32 flags.http_port) ∷ []
unfolding new_gateway gateway_pool new_pool
ports_of flags visibility waf_arn index = refl

-- Whatever numbers the port flags have, the two listeners of every gateway that the process creates
-- have a port that is not 0 and fits 32 bits: the conversion of the flags wraps around, and a
-- 0, written or left by the conversion, is replaced by the default.
pub listener_ports-IsPort :
    (flags : Flags) (visibility waf_arn : String) (index : ℤ)
    → All IsPort (ports (new_gateway (gateway_pool flags) visibility waf_arn index).listeners)
listener_ports-IsPort flags visibility waf_arn index = rw ports_of (
  or_default-IsPort 443 (to_int32 flags.https_port) (omega arith) (omega arith)
      (to_int32-IsInt32 flags.https_port),
  (
    or_default-IsPort 80 (to_int32 flags.http_port) (omega arith) (omega arith)
        (to_int32-IsInt32 flags.http_port),
    tt,
  ),
)

-- Where both port flags lie between 1 and 2^31 - 1, they are the ports of the listeners of every
-- gateway that the process creates, HTTPS first.
pub listener_ports :
    (flags : Flags) (https http : ℕ) (visibility waf_arn : String) (index : ℤ)
    → flags.https_port ≡ pos https
    → flags.http_port ≡ pos http
    → (0 < https) × (https < 2 ^ 31)
    → (0 < http) × (http < 2 ^ 31)
    → ports (new_gateway (gateway_pool flags) visibility waf_arn index).listeners
      ≡ pos https ∷ pos http ∷ []
listener_ports flags https http visibility waf_arn index e d (a, b) (c, k) =
    rw
      (
        ports_of,
        e,
        d,
        to_int32_small https b,
        to_int32_small http k,
        or_default_small 443 https a,
        or_default_small 80 http c,
      )
      refl
