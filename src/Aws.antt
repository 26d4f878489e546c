-- ===== src/Aws.antt =====
-- internal/aws: the interfaces' data, the table of regions, the mock clients and the clients over
-- the AWS SDK.
pub mod Types
pub mod Regions
pub mod Mock
pub mod Route53
pub mod Acm
