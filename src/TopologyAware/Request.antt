-- ===== src/TopologyAware/Request.antt =====
-- request.go and the parts of policy/container_context.go that it reads: what a container asks for.
pub mod Devices
pub mod Fields
use cloud_native.Prelude.{
  ℕ, String, Bool, true, false, Option, none, some, List, [], ◌∷◌, ◌++◌, if◌then◌else◌,
}
use Devices.{Text, DeviceType, DeviceEnvConfig, known_device_configs, check_device_request}
use Devices.DeviceType.{gpu, npu, fpga}

-- What the policy reads of a Kubernetes `ResourceList`: `Cpu().MilliValue()` and `Memory().Value()`,
-- which are 0 where the list has no such entry. (`Cpu` and `Memory` never return nil.)
pub record ResourceList : Type 0 where
  pub cpu_milli : ℕ
  pub memory : ℕ

pub record ResourceRequirements : Type 0 where
  pub requests : Option ResourceList
  pub limits : Option ResourceList

-- The fields of `ContainerRequest` that the policy reads; `estimated_requirements` is that of its
-- `Resources`.
pub record ContainerRequest : Type 0 where
  pub pod_uid : String
  pub pod_namespace : String
  pub container_id : String
  pub container_name : String
  pub cgroup_parent : Text
  pub container_envs : Option (List (String × Text))
  pub estimated_requirements : Option ResourceRequirements

requests_of : Option ResourceRequirements → Option ResourceList
requests_of none = none
requests_of (some r) = r.requests

limits_of : Option ResourceRequirements → Option ResourceList
limits_of none = none
limits_of (some r) = r.limits

unfoldable pub get_requests : ContainerRequest → Option ResourceList
unfolding requests_of
get_requests c = requests_of c.estimated_requirements

unfoldable pub get_limits : ContainerRequest → Option ResourceList
unfolding limits_of
get_limits c = limits_of c.estimated_requirements

-- `memType` is the constant DRAM and never read.
pub record Request : Type 0 where
  pub container : ContainerRequest
  pub cpu_limit : ℕ
  pub cpu_request : ℕ
  pub mem_limit : ℕ
  pub mem_request : ℕ
  pub has_gpu_request : Bool
  pub requested_gpu_devices : List Text

-- Both lists are there: `newRequest` has returned nil before if one is not.
unfoldable pub parse_resource_requirements : Request → ResourceList → ResourceList → Request
parse_resource_requirements r requests limits = record r {
  cpu_limit = limits.cpu_milli;
  cpu_request = requests.cpu_milli;
  mem_request = requests.memory;
  mem_limit = limits.memory;
}

-- the `switch` on the device type
add_devices : DeviceType → Bool → List Text → Request → Request
add_devices gpu has ids r =
    if has
    then record r { has_gpu_request = true; requested_gpu_devices = r.requested_gpu_devices ++ ids }
    else r
add_devices npu has ids r = r
add_devices fpga has ids r = r

-- the loop over `knownDeviceConfigs`
process_configs : Option (List (String × Text)) → List DeviceEnvConfig → Request → Request
unfolding check_device_request add_devices
process_configs envs [] r = r
process_configs envs (config ∷ configs) r =
    let (has, ids) = check_device_request envs config in
    process_configs envs configs (add_devices config.device_type has ids r)

unfoldable pub process_gpu_device_requests : Option (List (String × Text)) → Request → Request
unfolding process_configs
process_gpu_device_requests none r = r
process_gpu_device_requests (some envs) r = process_configs (some envs) known_device_configs r

request_of : ContainerRequest → Option ResourceList → Option ResourceList → Option Request
unfolding parse_resource_requirements process_gpu_device_requests
request_of c (some requests) (some limits) =
    let empty : Request = record {
      container = c;
      cpu_limit = 0;
      cpu_request = 0;
      mem_limit = 0;
      mem_request = 0;
      has_gpu_request = false;
      requested_gpu_devices = [];
    } in
    some (
      process_gpu_device_requests c.container_envs
        (parse_resource_requirements empty requests limits))
request_of c _ _ = none

-- `none` is the nil request.
unfoldable pub new_request : ContainerRequest → Option Request
unfolding request_of get_requests get_limits
new_request c = request_of c (get_requests c) (get_limits c)
