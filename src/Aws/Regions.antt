-- ===== src/Aws/Regions.antt =====
-- internal/aws/regions.go
pub mod Names
use gateway_orchestrator.Prelude.{
  ℕ, ◌-◌, ◌≡◌, String, ◌<>◌, Bool, ◌&&◌, Option, none, some, List, [], ◌∷◌, Result, ok, err, ltb,
  leb, length, get_elem?, ◌==◌, if◌then◌else◌,
}
use gateway_orchestrator.Prelude.Dict.{Dict, lookup}
use gateway_orchestrator.Api.Meta.{Error, errorf}
use gateway_orchestrator.Go.Strings.{split}

-- `ALBHostedZoneIDs`
abbrev pub alb_hosted_zone_ids : Dict String
alb_hosted_zone_ids =
    ("us-east-1", "Z35SXDOTRQ7X7K")
    ∷ ("us-east-2", "Z3AADJGX6KTTL2")
    ∷ ("us-west-1", "Z368ELLRRE2KJ0")
    ∷ ("us-west-2", "Z1H1FL5HABSF5")
    ∷ ("ca-central-1", "ZQSVJUPU6J1EY")
    ∷ ("eu-central-1", "Z215JYRZR1TBD5")
    ∷ ("eu-west-1", "Z32O12XQLNTSW2")
    ∷ ("eu-west-2", "ZHURV8PSTC4K8")
    ∷ ("eu-west-3", "Z3Q77PNBQS71R4")
    ∷ ("eu-north-1", "Z23TAZ6LKFMNIO")
    ∷ ("eu-south-1", "Z3ULH7SSC9OV64")
    ∷ ("ap-east-1", "Z3DQVH9N71FHZ0")
    ∷ ("ap-northeast-1", "Z14GRHDCWA56QT")
    ∷ ("ap-northeast-2", "ZWKZPGTI48KDX")
    ∷ ("ap-northeast-3", "Z5LXEXXYW11ES")
    ∷ ("ap-southeast-1", "Z1LMS91P8CMLE5")
    ∷ ("ap-southeast-2", "Z1GM3OXH4ZPM65")
    ∷ ("ap-south-1", "ZP97RAFLXTNZK")
    ∷ ("sa-east-1", "Z2P70J7HTTTPLU")
    ∷ ("me-south-1", "ZS929ML54UICD")
    ∷ ("af-south-1", "Z268VQBMOI5EKX")
    ∷ []

-- `GetALBHostedZoneID`
unfoldable pub get_alb_hosted_zone_id : String → Result Error String
get_alb_hosted_zone_id region = elim (lookup region alb_hosted_zone_ids) [
  | none ↦ err (errorf ("unknown region: " <> region <> " (ALB hosted zone ID not found)"))
  | some zone_id ↦ ok zone_id
]

-- The part at an index that the code has checked.
abbrev pub part : List String → ℕ → String
part parts i = elim (get_elem? parts i) [ none ↦ "" | some p ↦ p ]

-- The tests of `ExtractRegionFromALBDNS`, on the parts of the name.
unfoldable pub region_of_parts : String → List String → Result Error String
region_of_parts alb_dns parts =
    let n = length parts in
    if ltb n 4
    then err (errorf ("invalid ALB DNS name format: " <> alb_dns))
    else if leb 5 n && part parts (n - 3) == "elb"
    then ok (part parts (n - 4))
    else err (errorf ("could not extract region from ALB DNS: " <> alb_dns))

-- `ExtractRegionFromALBDNS`
unfoldable pub extract_region_from_alb_dns : String → Result Error String
unfolding region_of_parts
extract_region_from_alb_dns alb_dns = region_of_parts alb_dns (split b'.' alb_dns)
