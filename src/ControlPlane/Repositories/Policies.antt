-- ===== src/ControlPlane/Repositories/Policies.antt =====
-- `InMemoryPolicyVersionRepository`.
use uwo_shared_platform.Prelude.{String, Option}
use uwo_shared_platform.Prelude.Keys.{string_eq}
use uwo_shared_platform.Prelude.Dict
use uwo_shared_platform.Errors.{Code, conflict}
use uwo_shared_platform.ControlPlane.World.{Db, FailurePoint, PolicyDocument}
use uwo_shared_platform.ControlPlane.Action.{
  Act, return, gets, raise_when, write_db, trigger, ◌>>=◌, ◌>>◌,
}

abbrev pub current : String → Act (Option PolicyDocument)
current tenant_id = gets (λ w. Dict.get w.db.policies tenant_id)

unfoldable pub store : PolicyDocument → Db → Db
store d db = record db { policies = Dict.set db.policies d.tenant_id d }

unfoldable pub create_initial : PolicyDocument → Act PolicyDocument
create_initial d = do
  raise_when (← gets (λ w. Dict.contains w.db.policies d.tenant_id)) (conflict Code.policy_exists)
  write_db (store d)
  trigger FailurePoint.policy_initialization
  return d
