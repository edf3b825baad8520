-- ===== src/Tests/Commands.antt =====
-- The theorems of the command line at a concrete server.
use open_stack_cnf.Prelude.{[], ◌∷◌, none, some}
use open_stack_cnf.Effect.Exceptions.{ok}
use open_stack_cnf.Effect.Env.{arr, null}
use open_stack_cnf.Api.Clusters.{ClusterResponse}
use open_stack_cnf.Osc.{Remote}
use open_stack_cnf.Osc.Answers.{array, cluster_json}
use open_stack_cnf.Osc.Rows.{cluster_values}
use open_stack_cnf.Osc.Table.{Table}
use open_stack_cnf.Osc.Commands.{cluster_columns}

abbrev there : ClusterResponse
there = record {
  id = "there";
  name = "There";
  auth_url = "http://there:5000/v3";
  region = "RegionOne";
  grpc_addr = "there:50051";
  role = "worker";
  status = "online";
  bgp_as = some 65001;
}

abbrev test_remote : Remote
test_remote = record {
  get_token = λ sent. ok "token";
  send =
      λ sent r. ok (record { refused = none; json = ok (arr (array cluster_json (there ∷ []))) });
  json_loads = λ s. ok null;
}

abbrev test_table : Table
test_table = record { columns = cluster_columns; rows = cluster_values there ∷ [] }
