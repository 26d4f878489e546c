-- ===== src/Pool/Create.antt =====
-- The gateway that `CreateGateway` sends, seen by a later `SelectGateway`.
use gateway_orchestrator.Prelude.Dict
use gateway_orchestrator.Prelude.Dict.{Dict}
use gateway_orchestrator.Pool.Defs.{Pool}
