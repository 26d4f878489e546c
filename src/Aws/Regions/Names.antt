-- ===== src/Aws/Regions/Names.antt =====
-- The region in the DNS name of a load balancer.
use Prim.Native.Char.{Char, char}
use Prim.Native.String.append
use gateway_orchestrator.Prelude.{
  ℕ, suc, ◌+◌, ◌-◌, ◌≡◌, ◌≢◌, refl, ap, ◌∙◌, String, ◌<>◌, List, [], ◌∷◌, ◌++◌, ok, arith, length,
  ==_refl,
}
use gateway_orchestrator.Go.Strings.{split}
use gateway_orchestrator.Go.Strings.Split.{Lacks, split-append, split-ne-nil, split_of_Lacks}
use gateway_orchestrator.Aws.Regions.{part, region_of_parts, extract_region_from_alb_dns}

part-append : (xs ys : List String) (i : ℕ) → part (xs ++ ys) (length xs + i) ≡ part ys i
part-append [] ys i = ap (part ys) (omega arith)
part-append (x ∷ xs) ys i =
    let e : suc (length xs) + i ≡ suc (length xs + i) = omega arith in rw e (part-append xs ys i)

length-append : (xs ys : List String) → length (xs ++ ys) ≡ length xs + length ys
length-append [] ys = omega arith
length-append (x ∷ xs) ys = omega (arith, length-append xs ys)

length-ne-zero : (xs : List String) → xs ≢ [] → length xs ≢ 0
length-ne-zero [] h = absurd (h refl)
length-ne-zero (x ∷ xs) h = omega arith

abbrev dot : Char
dot = char 46 tt

abbrev tail_parts : String → List String
tail_parts region = region ∷ "elb" ∷ "amazonaws" ∷ "com" ∷ []

region_of_parts-tail :
    (dns region : String) (xs : List String)
    → xs ≢ []
    → region_of_parts dns (xs ++ tail_parts region) ≡ ok region
unfolding region_of_parts
region_of_parts-tail dns region xs h =
    let n : length (xs ++ tail_parts region) ≡ length xs + 4 =
      length-append xs (tail_parts region) in
    let third : length xs + 4 - 3 ≡ length xs + 1 = omega arith in
    let fourth : length xs + 4 - 4 ≡ length xs + 0 = omega arith in
    rw
      (n, third, fourth, part-append xs (tail_parts region) 1, part-append xs (tail_parts region) 0)
      (ground (arith, length-ne-zero xs h, ==_refl "elb"))

-- The DNS name `<name>.<region>.elb.amazonaws.com`.
abbrev pub alb_name : String → String → String
alb_name name region = name <> ("." <> (region <> ".elb.amazonaws.com"))

dot_append : (s t : String) → split 46 (s <> ("." <> t)) ≡ split 46 s ++ split 46 t
dot_append s t =
    ap (λ u. split 46 (s <> u)) (append.cons dot "" t ∙ ap (String.◌∷◌ dot) (append.nil t))
    ∙ split-append 46 s t dot refl

split-alb_name :
    (name region : String)
    → Lacks 46 region
    → split 46 (alb_name name region) ≡ split 46 name ++ tail_parts region
split-alb_name name region h =
    dot_append name (region <> ".elb.amazonaws.com")
    ∙ ap (λ l. split 46 name ++ l)
        (split-append 46 region "elb.amazonaws.com" dot refl
          ∙ rw (split_of_Lacks 46 region h) (unfold split in refl))

-- The region is read back from the DNS name of every load balancer of the documented form, whatever
-- stands before it (further dots also), if the region has no dot.
pub extract_region-alb_name :
    (name region : String)
    → Lacks 46 region
    → extract_region_from_alb_dns (alb_name name region) ≡ ok region
unfolding extract_region_from_alb_dns
extract_region-alb_name name region h =
    rw (split-alb_name name region h)
      (region_of_parts-tail (alb_name name region) region (split 46 name) (split-ne-nil 46 name))
