-- ===== src/Lib.antt =====
-- The gateway orchestrator: a Kubernetes controller that gives a hostname to a request. For a
-- GatewayHostnameRequest it claims the hostname, asks ACM for a certificate, writes the records
-- that validate it, assigns the request to a gateway of a pool, points the hostname at the
-- gateway's load balancer, and marks the request Ready; a deletion takes all of this back.
--
-- The files and the code that they model:
--   Prelude and its children: Boolean tests, texts, Go maps as association lists (Dict), calls on a
--     state that may fail and keep what they wrote (Call), what such calls keep (Triple, Keeping),
--     what their errors are (Stopping) and that they return (Running).
--   Go: the parts of Go's library that the code uses: int (Int), package strings (Strings), the
--     %02d and %d of fmt and Sscanf (Format), sort.Strings (Sort).
--   Api: api/v1alpha1/*_types.go, and the shape of the cluster's own objects (Cluster, Meta). The
--     handlers' records hold what their pointers lead to. Api/DeepCopy is zz_generated.deepcopy.go
--     over a memory of cells: Heap (new, load and store), Linked (values that hold addresses, and
--     what is read through them), Types (the structs with their pointers), Claims, Requests, Grants
--     and Objects (the functions), Apart (originals and copies).
--   Aws: internal/aws. Types holds the interfaces of acm.go and route53.go; Regions, Mock, Acm
--     (acm_sdk.go) and Route53 (route53_sdk.go) are named as the files are.
--   Services: the Kubernetes API, its helper functions and the clock, as records of calls over a
--     world W that stands for everything outside the process; Laws holds what theorems rely on.
--   Pool: internal/gateway/pool.go (SelectGateway, CreateGateway, GetNextGatewayIndex).
--   Controller: internal/controller. Claim is domainclaim.go, Certificate is certificate.go,
--     LoadBalancer is loadbalancerconfig.go, and Gateway, Assign, Alias and Cleanup are gateway.go.
--     gatewayhostnamerequest_controller.go is Types (the reconciler and the state of a run), Status
--     (conditions and events), Drift (validateAssignedResources, cleanupForReprovisioning), Steps
--     (the steps of reconcileNormal), Delete (reconcileDelete and what it calls) and Reconcile.
--     Footprint, Progress and Claim/Contest hold no code: they are about whole runs, what these
--     write, how they stop, and runs of several requests in turn, down to Footprint/Exclusive, where
--     any requests' runs of Reconcile follow one another.
--   Main: cmd/controller/main.go, the constructors of the SDK's clients and SetupWithManager.
--   Tests: a world in memory over the mock clients, and the theorems at concrete inputs.
--
-- How the parts interact: a handler has the request, which its steps change in place, and the
-- world. A handler that returns early gives its ctrl.Result as the error of the call. Every call of
-- the API server or of AWS is one step of the world, which may fail and may let others write first;
-- the theorems hold for every such world, under the laws that they name. A name of a function is
-- the source's in lower case; a loop or a branch of a function has a name of its own where a
-- theorem is about it.
--
-- Bounds: every loop goes over a list and is structural recursion, so nothing runs on fuel. An int
-- is a 64-bit integer, and the next index wraps around at 2^63; ToLower is that of ASCII, since a
-- hostname and a zone id are ASCII. The %d of Sscanf skips ASCII white space only before the number.
--
-- Not modelled: contexts, timeouts and logs; the difference between a nil map and an empty one;
-- time stamps of conditions, which lie inside the library's SetStatusCondition; a nil GatewayPool,
-- which main never leaves; the registration of the scheme and the logger's options in
-- cmd/controller/main.go; the SDK below the calls of acm_sdk.go and route53_sdk.go.
pub mod Prelude
pub mod Go
pub mod Api
pub mod Aws
pub mod Services
pub mod Pool
pub mod Controller
pub mod Main
mod Tests
