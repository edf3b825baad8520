-- ===== src/Api.antt =====
-- cnf/api: the REST API. A handler is an action on the world that returns the fields of its answer,
-- or raises an HTTPException; any other exception is answered with status 500.
pub mod Migrations
pub mod Abort
pub mod Pages
pub mod Vms
pub mod Submission
pub mod App
pub mod Proxy
pub mod Clusters
pub mod Registry
pub mod Master
