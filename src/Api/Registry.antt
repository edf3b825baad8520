-- ===== src/Api/Registry.antt =====
-- cnf/api/v1/clusters.py: a cluster that is registered is found.
use open_stack_cnf.Prelude.{String, none, some, ◌≡◌, ◌≢◌, refl, ◌∙◌, ap}
use open_stack_cnf.Prelude.Dict.{lookup, insert, lookup-insert_self, lookup-insert_ne}
use open_stack_cnf.Db.Models.{Cluster}
use open_stack_cnf.Effect.Exceptions.{ok}
use open_stack_cnf.Effect.Call.{History}
use open_stack_cnf.Effect.Env.{Env}
use open_stack_cnf.Effect.Action.{with_state, ◌>>=◌}
use open_stack_cnf.Effect.Session.{World, with_session}
use open_stack_cnf.Api.Clusters.{
  ClusterCreate, ClusterResponse, register_cluster, get_cluster, new_cluster, response_of,
}

module _ (env : Env) (sound : (h : History) → env.db_fault h ≡ none) where
  get_cluster_lem :
      (id : String) (w : World) (c : Cluster)
      → lookup id w.db.clusters ≡ some c
      → (get_cluster env id w).0 ≡ ok (response_of c)
  unfolding get_cluster ◌>>=◌ with_session
  get_cluster_lem id w c h = rw (sound w.history, h) refl

  register_cluster_lem :
      (body : ClusterCreate) (w : World)
      → let c = new_cluster (env.uuid w.history) body in
        ((register_cluster env body w).0 ≡ ok (response_of c))
        × ((register_cluster env body w).1.db
            ≡ record w.db { clusters = insert c.id c w.db.clusters })
  unfolding register_cluster ◌>>=◌ with_session with_state
  register_cluster_lem body w = rw (sound w.history) (refl, refl)

  -- Where no session fails, a registration answers with the name, the URL, the region, the address
  -- and the AS number of its body, the role worker and the status offline; a request for the
  -- cluster of its id then has the same answer, and the other clusters are as they were.
  pub register_cluster-get :
      (body : ClusterCreate) (w : World)
      → let w' = (register_cluster env body w).1 in
        (r : ClusterResponse) × ((register_cluster env body w).0 ≡ ok r)
        × (r ≡ record {
          id = env.uuid w.history;
          name = body.name;
          auth_url = body.auth_url;
          region = body.region;
          grpc_addr = body.grpc_addr;
          role = "worker";
          status = "offline";
          bgp_as = body.bgp_as;
        })
        × ((get_cluster env r.id w').0 ≡ ok r)
        × ((other : String)
            → r.id ≢ other
            → lookup other w'.db.clusters ≡ lookup other w.db.clusters)
  register_cluster-get body w =
      let c = new_cluster (env.uuid w.history) body in
      let w' = (register_cluster env body w).1 in
      let (p, q) = register_cluster_lem body w in
      (
        response_of c,
        p,
        refl,
        get_cluster_lem c.id w' c
            (ap (λ d. lookup c.id d.clusters) q ∙ lookup-insert_self c.id c w.db.clusters),
        λ other apart.
            ap (λ d. lookup other d.clusters) q ∙ lookup-insert_ne c.id other c w.db.clusters apart,
      )
