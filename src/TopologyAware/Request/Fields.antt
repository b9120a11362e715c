-- ===== src/TopologyAware/Request/Fields.antt =====
-- What newRequest of request.go copies out of a container's context.
use cloud_native.Prelude.{String, Option, some, List, [], ◌∷◌, ◌≡◌, Bool, arith}
use cloud_native.TopologyAware.Request.{
  ResourceList, ContainerRequest, Request, get_requests, get_limits, new_request, process_configs,
  add_devices,
}
use cloud_native.TopologyAware.Request.Devices.{
  Text, DeviceEnvConfig, DeviceType, check_device_request,
}

-- The request `q` has the amounts of `r`, and its container.
pub record SameAmounts (q r : Request) : Type 0 where
  pub container : q.container ≡ r.container
  pub cpu_limit : q.cpu_limit ≡ r.cpu_limit
  pub cpu_request : q.cpu_request ≡ r.cpu_request
  pub mem_limit : q.mem_limit ≡ r.mem_limit
  pub mem_request : q.mem_request ≡ r.mem_request

add_devices-SameAmounts :
    (t : DeviceType) (has : Bool) (ids : List Text) (r : Request)
    → SameAmounts (add_devices t has ids r) r
unfolding add_devices
add_devices-SameAmounts t has ids r = ground arith

process_configs-SameAmounts :
    (envs : Option (List (String × Text))) (configs : List DeviceEnvConfig) (r : Request)
    → SameAmounts (process_configs envs configs r) r
unfolding process_configs
process_configs-SameAmounts envs [] r = ground arith
process_configs-SameAmounts envs (config ∷ configs) r =
    let (has, ids) = check_device_request envs config in
    ground (
      arith,
      add_devices-SameAmounts config.device_type has ids r,
      process_configs-SameAmounts envs configs (add_devices config.device_type has ids r),
    )

-- A request carries its container, and the amounts of the container's two lists.
pub record IsRequestOf (req : Request) (c : ContainerRequest) (lr ll : ResourceList) : Type 0 where
  pub container : req.container ≡ c
  pub cpu_request : req.cpu_request ≡ lr.cpu_milli
  pub cpu_limit : req.cpu_limit ≡ ll.cpu_milli
  pub mem_request : req.mem_request ≡ lr.memory
  pub mem_limit : req.mem_limit ≡ ll.memory

pub new_request-IsRequestOf :
    (c : ContainerRequest) (req : Request) (lr ll : ResourceList)
    → get_requests c ≡ some lr
    → get_limits c ≡ some ll
    → new_request c ≡ some req
    → IsRequestOf req c lr ll
unfolding new_request
new_request-IsRequestOf c req lr ll er el h = ground arith
