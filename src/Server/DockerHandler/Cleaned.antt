-- ===== src/Server/DockerHandler/Cleaned.antt =====
-- CleanCache keeps the containers that the daemon lists, and none where the listing fails.
use cloud_native.Prelude.{Option, none, some, List, [], ◌≡◌, ◌↔◌, ap, arith, if◌then◌else◌}
use cloud_native.TopologyAware.Request.Devices.{Text}
use cloud_native.PcoreBinding.Topology.{has_text}
use cloud_native.Cache.Containers.{Container}
use cloud_native.Cache.Store.{Cache}
use cloud_native.Cache.Store.Valid.{IsValid}
use cloud_native.Cache.Store.View.{view}
use cloud_native.Cache.Validate.{is_known, has_prefix_match}
use cloud_native.Cache.Validate.Listed.{IsListed, is_known_iff}
use cloud_native.Cache.Validate.Clean.{cleanup-validate}
use cloud_native.Server.DockerHandler.{listed_ids, clean_cache}

-- The containers that an answer of the daemon leaves
abbrev left_by : Option (List Text) → (Text → Option Container) → Text → Option Container
left_by none f k = none
left_by (some ids) f k = if is_known ids k then f k else none

view-clean_cache :
    (answer : Option (List Text)) (c : Cache)
    → IsValid c
    → view (clean_cache answer c) ≡ left_by answer (view c)
unfolding clean_cache listed_ids is_known has_prefix_match has_text
view-clean_cache none c v = cleanup-validate [] c v
view-clean_cache (some ids) c v = cleanup-validate ids c v

-- The daemon has answered, and its list has `k` or an id that `k` is related to by a prefix.
abbrev pub IsReported : Option (List Text) → Text → Type 0
IsReported none k = ⊥
IsReported (some ids) k = IsListed ids k

-- After CleanCache a valid cache has a container under an id exactly if it had it before, the
-- daemon has answered, and its list has an id that is a prefix of the container's or that the
-- container's is a prefix of. Where the answer is an error it has none.
pub view-clean_cache_iff :
    (answer : Option (List Text)) (c : Cache) (k : Text) (o : Container)
    → IsValid c
    → (view (clean_cache answer c) k ≡ some o) ↔ ((view c k ≡ some o) × IsReported answer k)
view-clean_cache_iff none c k o v =
    let left = ap (λ f. f k) (view-clean_cache none c v) in (λ h. cc, λ (h, failed). absurd failed)
view-clean_cache_iff (some ids) c k o v =
    let left = ap (λ f. f k) (view-clean_cache (some ids) c v) in
    ground (arith, left, is_known_iff ids k)
