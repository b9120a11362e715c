-- ===== src/TopologyAware/Supply.antt =====
-- supply.go, grant.go and score.go: what a node of the tree has, what it has granted, and how well it
-- fits a request.
pub mod Reversible
pub mod Capacity
use cloud_native.Prelude.{
  ℕ, Bool, false, ◌&&◌, Option, none, some, List, [], ◌∷◌, leb, ltb, if◌then◌else◌,
}
use cloud_native.Word64.{add64, sub64, mul64, is_neg, is_pos, slt, sdiv}
use cloud_native.TopologyAware.Outcome.{
  memory_exceeded, cpu_exceeded, Outcome, ok, err, panic, ◌>>=◌,
}
use cloud_native.TopologyAware.CpuSets.{CpuSetLib}
use cloud_native.TopologyAware.Request.{
  ResourceList, ContainerRequest, Request, get_requests, get_limits,
}

-- A grant holds the node by its number in the policy's list of nodes.
pub record Grant : Type 0 where
  pub container_ctx : ContainerRequest
  pub node : ℕ
  pub exclusive : Bool
  pub allocated_cpus : ℕ
  pub allocated_cpu_by_request : ℕ
  pub allocated_cpu_by_limit : ℕ
  pub allocated_memory : ℕ

unfoldable pub new_grant : ℕ → ContainerRequest → Bool → ℕ → Grant
new_grant n ctx exclusive granted_cpus = record {
  container_ctx = ctx;
  node = n;
  exclusive = exclusive;
  allocated_cpus = granted_cpus;
  allocated_cpu_by_request = 0;
  allocated_cpu_by_limit = 0;
  allocated_memory = 0;
}

-- The policy's side of `ScoreContext`.
pub record ScoreContext : Type 0 where
  pub count_colocation : ℕ → ℕ
  pub count_node_gpus : ℕ → ℕ

pub record Score : Type 0 where
  pub shared : ℕ
  pub shared_by_request : ℕ
  pub shared_by_limit : ℕ
  pub memory_capacity : ℕ
  pub colocated : ℕ
  pub gpu_count : ℕ

unfoldable pub sum_gpus : (ℕ → ℕ) → List ℕ → ℕ
sum_gpus count [] = 0
sum_gpus count (numa ∷ numas) = add64 (count numa) (sum_gpus count numas)

-- `if x < 0 { x = 0 }`
abbrev pub clamp : ℕ → ℕ
clamp x = if is_neg x then 0 else x

module _ (lib : CpuSetLib) where
  open lib use {CpuSet, size, union}

  pub record MemInfo : Type 0 where
    pub mem_total : ℕ
    pub mem_set : CpuSet

  pub record Supply : Type 0 where
    pub node : ℕ
    pub isolated : CpuSet
    pub sharable : CpuSet
    pub granted_shared : ℕ
    pub granted_cpu_by_request : ℕ
    pub granted_cpu_by_limit : ℕ
    pub memory_total : ℕ
    pub granted_memory : ℕ

  mem_total_of : Option MemInfo → ℕ
  mem_total_of none = 0
  mem_total_of (some m) = m.mem_total

  -- `info` is what `n.MemoryInfo()` returns, `none` for its error.
  unfoldable pub new_supply : ℕ → Option MemInfo → CpuSet → CpuSet → Supply
  unfolding mem_total_of
  new_supply n info isolated sharable = record {
    node = n;
    isolated = isolated;
    sharable = sharable;
    granted_shared = 0;
    granted_cpu_by_request = 0;
    granted_cpu_by_limit = 0;
    memory_total = mem_total_of info;
    granted_memory = 0;
  }

  unfoldable pub clone : Option MemInfo → Supply → Supply
  unfolding new_supply
  clone info s = new_supply s.node info s.isolated s.sharable

  unfoldable pub total_cpus : Supply → CpuSet
  total_cpus s = union s.isolated s.sharable

  unfoldable pub collect : Supply → Supply → Supply
  collect s more = record s {
    isolated = union s.isolated more.isolated;
    sharable = union s.sharable more.sharable;
    granted_shared = add64 s.granted_shared more.granted_shared;
    granted_cpu_by_request = add64 s.granted_cpu_by_request more.granted_cpu_by_request;
    granted_cpu_by_limit = add64 s.granted_cpu_by_limit more.granted_cpu_by_limit;
    memory_total = add64 s.memory_total more.memory_total;
    granted_memory = add64 s.granted_memory more.granted_memory;
  }

  unfoldable pub total_shared_cpu : Supply → ℕ
  total_shared_cpu s = mul64 1000 (size s.sharable)

  unfoldable pub allocatable_shared_cpu : Supply → ℕ
  unfolding total_shared_cpu
  allocatable_shared_cpu s = sub64 (total_shared_cpu s) s.granted_shared

  unfoldable pub allocatable_cpu_by_request : Supply → ℕ
  unfolding total_shared_cpu
  allocatable_cpu_by_request s = sub64 (total_shared_cpu s) s.granted_cpu_by_request

  unfoldable pub allocatable_cpu_by_limit : Supply → ℕ
  unfolding total_shared_cpu
  allocatable_cpu_by_limit s = sub64 (total_shared_cpu s) s.granted_cpu_by_limit

  unfoldable pub allocatable_memory : Supply → ℕ
  allocatable_memory s =
      if leb s.memory_total s.granted_memory then 0 else sub64 s.memory_total s.granted_memory

  -- `node_id` and `numa_ids` are those of the supply's node.
  unfoldable pub get_score : Supply → Request → ScoreContext → ℕ → List ℕ → Score
  unfolding allocatable_shared_cpu allocatable_cpu_by_request allocatable_cpu_by_limit
      allocatable_memory
  get_score s req ctx node_id numa_ids = record {
    shared = sub64 (allocatable_shared_cpu s) req.cpu_limit;
    shared_by_request = sub64 (allocatable_cpu_by_request s) req.cpu_request;
    shared_by_limit = sub64 (allocatable_cpu_by_limit s) req.cpu_limit;
    memory_capacity = allocatable_memory s;
    colocated = ctx.count_colocation node_id;
    gpu_count = sum_gpus ctx.count_node_gpus numa_ids;
  }

  -- The check and the grant of `AllocateCPU`, given what `GetRequests` and `GetLimits` return.
  grant_cpu : Supply → ContainerRequest → ResourceList → ResourceList → Outcome (Supply × Grant)
  unfolding total_shared_cpu new_grant
  grant_cpu s ctx requests limits =
      let request_cpu = requests.cpu_milli in
      let limit_cpu = limits.cpu_milli in
      if slt (total_shared_cpu s) (add64 request_cpu s.granted_cpu_by_request)
      then err cpu_exceeded
      else ok (
        record s {
          granted_shared = add64 s.granted_shared request_cpu;
          granted_cpu_by_request = add64 s.granted_cpu_by_request request_cpu;
          granted_cpu_by_limit = add64 s.granted_cpu_by_limit limit_cpu;
        },
        record (new_grant s.node ctx false 0) {
          allocated_cpus = request_cpu;
          allocated_cpu_by_request = request_cpu;
          allocated_cpu_by_limit = limit_cpu;
        },
      )

  -- A nil list is dereferenced by `Cpu()`.
  cpu_lists :
      Supply
      → ContainerRequest
      → Option ResourceList
      → Option ResourceList
      → Outcome (Supply × Grant)
  unfolding grant_cpu
  cpu_lists s ctx (some requests) (some limits) = grant_cpu s ctx requests limits
  cpu_lists s ctx _ _ = panic

  unfoldable pub allocate_cpu : Supply → Request → Outcome (Supply × Grant)
  unfolding cpu_lists get_requests get_limits
  allocate_cpu s req =
      cpu_lists s req.container (get_requests req.container) (get_limits req.container)

  -- The memory that `Allocate` books after the CPUs.
  book_memory : ℕ → Supply × Grant → Supply × Grant
  book_memory memory_request (s, g) =
      if is_pos memory_request
      then (
        record s { granted_memory = add64 s.granted_memory memory_request },
        record g { allocated_memory = memory_request },
      )
      else (s, g)

  unfoldable pub allocate : Supply → Request → Bool → Outcome (Supply × Grant)
  unfolding allocatable_memory allocate_cpu book_memory
  allocate s req enforce_memory_capacity =
      let memory_request = sdiv req.mem_limit 1024 in
      if enforce_memory_capacity
        && is_pos memory_request
        && ltb (allocatable_memory s) memory_request
      then err memory_exceeded
      else allocate_cpu s req >>= λ r. ok (book_memory memory_request r)

  -- Only `granted_shared` and the memory are held at 0.
  unfoldable pub release : Supply → Grant → Supply
  release s g = record s {
    granted_shared = clamp (sub64 s.granted_shared g.allocated_cpus);
    granted_cpu_by_request = sub64 s.granted_cpu_by_request g.allocated_cpu_by_request;
    granted_cpu_by_limit = sub64 s.granted_cpu_by_limit g.allocated_cpu_by_limit;
    granted_memory =
        if ltb s.granted_memory g.allocated_memory
        then 0
        else sub64 s.granted_memory g.allocated_memory;
  }
