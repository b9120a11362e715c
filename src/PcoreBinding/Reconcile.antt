-- ===== src/PcoreBinding/Reconcile.antt =====
-- reconcileOnce of plugin/agent.go: the pass over the pods, with the files of their cgroups.
pub mod Exclusive
use Prim.Native.String.{String}
use cloud_native.Prelude.{
  ℕ, Bool, true, false, not, Option, none, some, List, [], ◌∷◌, ◌==◌, str_eq, if◌then◌else◌, ltb,
}
use cloud_native.TopologyAware.Request.Devices.{Text, codes, is_empty, trim_space}
use cloud_native.TopologyAware.Filter.{text_eq}
use cloud_native.PcoreBinding.Topology.{has_text}
use cloud_native.PcoreBinding.Agent.{PodInfo, Agent, match, normalize_cpuset, target_cpuset}

-- The contents of the files `cpuset.cpus` of the cgroups, `none` where there is no such file.
abbrev pub Files : Type 0
Files = String → Option Text

-- What the agent asks of the system: the cgroups of a pod that have such a file
-- (`resolveCgroupPathCandidates`, `none` for its error), and which files can be written.
pub record System : Type 0 where
  pub resolve_cgroup_path_candidates : String → String → Option (List String)
  pub writable : String → Bool

-- `assigned` is not kept by the code: it says which pods got which text in this pass, the last first.
pub record Pass : Type 0 where
  pub files : Files
  pub occupied : List Text
  pub assigned : List (PodInfo × Text)

trimmed_or_none : Option Text → Option Text
trimmed_or_none none = none
trimmed_or_none (some raw) = some (trim_space raw)

unfoldable pub read_cpuset : Files → String → Option Text
unfolding trimmed_or_none
read_cpuset files path = trimmed_or_none (files path)

-- A failed write is logged.
unfoldable pub write_cpuset : System → Files → String → Text → Files
write_cpuset system files path cpus =
    if system.writable path then (λ p. if str_eq p path then some cpus else files p) else files

unfoldable pub write_all : System → Files → List String → Text → Files
unfolding write_cpuset
write_all system files [] target = files
write_all system files (path ∷ paths) target =
    write_all system (write_cpuset system files path target) paths target

-- `none` is an error of a read; the first set that differs ends the loop.
differs : Text → Option Text → Option Bool → Option Bool
differs target_set none rest = none
differs target_set (some current) rest =
    if text_eq (normalize_cpuset current) target_set then rest else some true

unfoldable pub needs_cpuset_update : Files → List String → Text → Option Bool
unfolding differs read_cpuset
needs_cpuset_update files [] target = some false
needs_cpuset_update files (path ∷ paths) target =
    differs (normalize_cpuset target) (read_cpuset files path)
      (needs_cpuset_update files paths target)

update_files : Agent → System → Files → List String → Text → Option Bool → Files
unfolding write_all
update_files a system files paths target none = files
update_files a system files paths target (some false) = files
update_files a system files paths target (some true) =
    if a.dry_run then files else write_all system files paths target

-- The rest of a round, from the target
reconcile_target : Agent → System → Pass → PodInfo → List String → Text → Pass
unfolding update_files needs_cpuset_update
reconcile_target a system pass pod paths target = if is_empty target then pass else record {
  files =
      update_files a system pass.files paths target (needs_cpuset_update pass.files paths target);
  occupied = normalize_cpuset target ∷ pass.occupied;
  assigned = (pod, target) ∷ pass.assigned;
}

reconcile_current : Agent → System → Pass → PodInfo → List String → Option Text → Pass
unfolding reconcile_target target_cpuset
reconcile_current a system pass pod paths none = pass
reconcile_current a system pass pod paths (some current) =
    reconcile_target a system pass pod paths (target_cpuset a current pass.occupied)

-- No path at all is an error.
reconcile_paths : Agent → System → Pass → PodInfo → Option (List String) → Pass
unfolding reconcile_current read_cpuset
reconcile_paths a system pass pod none = pass
reconcile_paths a system pass pod (some []) = pass
reconcile_paths a system pass pod (some (path ∷ paths)) =
    reconcile_current a system pass pod (path ∷ paths) (read_cpuset pass.files path)

-- One round of `reconcileOnce`
unfoldable pub reconcile_pod : Agent → System → Pass → PodInfo → Pass
unfolding reconcile_paths match
reconcile_pod a system pass pod =
    if not (match a pod)
    then pass
    else if str_eq pod.cgroup_path ""
    then pass
    else reconcile_paths a system pass pod
        (system.resolve_cgroup_path_candidates pod.cgroup_path pod.id)

unfoldable pub reconcile_pods : Agent → System → Pass → List PodInfo → Pass
unfolding reconcile_pod
reconcile_pods a system pass [] = pass
reconcile_pods a system pass (pod ∷ pods) =
    reconcile_pods a system (reconcile_pod a system pass pod) pods

-- Go's `<` on texts
text_less : Text → Text → Bool
text_less s [] = false
text_less [] (d ∷ t) = true
text_less (c ∷ s) (d ∷ t) = let rest = text_less s t in if c == d then rest else ltb c d

pod_less : PodInfo → PodInfo → Bool
unfolding text_less
pod_less p q =
    if not (str_eq p.namespace q.namespace)
    then text_less (codes p.namespace) (codes q.namespace)
    else if not (str_eq p.name q.name)
    then text_less (codes p.name) (codes q.name)
    else text_less (codes p.id) (codes q.id)

insert_pod : PodInfo → List PodInfo → List PodInfo
unfolding pod_less
insert_pod p [] = p ∷ []
insert_pod p (q ∷ qs) = let rest = insert_pod p qs in if pod_less q p then q ∷ rest else p ∷ q ∷ qs

unfoldable pub sort_pods : List (String × PodInfo) → List PodInfo
unfolding insert_pod
sort_pods [] = []
sort_pods ((key, pod) ∷ pods) = insert_pod pod (sort_pods pods)

unfoldable pub list_pods : Agent → List PodInfo
unfolding sort_pods
list_pods a = sort_pods a.pods

unfoldable pub reconcile_once : Agent → System → Files → Pass
unfolding reconcile_pods list_pods
reconcile_once a system files =
    reconcile_pods a system (record { files = files; occupied = []; assigned = [] }) (list_pods a)
