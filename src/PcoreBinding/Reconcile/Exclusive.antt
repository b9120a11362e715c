-- ===== src/PcoreBinding/Reconcile/Exclusive.antt =====
-- reconcileOnce of plugin/agent.go: in one pass no two pods get the same pair.
use cloud_native.Prelude.{
  true, false, String, Option, none, some, List, [], ◌∷◌, ◌≡◌, refl, Bool-cases, inl, inr, str_eq,
  ap, subst,
}
use cloud_native.TopologyAware.Request.Devices.{Text, is_empty}
use cloud_native.PcoreBinding.Topology.{has_text}
use cloud_native.PcoreBinding.Agent.{PodInfo, Agent, match, normalize_cpuset, target_cpuset}
use cloud_native.PcoreBinding.Reconcile.{
  System, Files, Pass, read_cpuset, reconcile_target, reconcile_current, reconcile_paths,
  reconcile_pod, reconcile_pods, reconcile_once, list_pods,
}
use cloud_native.PcoreBinding.Topology.Distinct.{texts, NoRepeat}
use cloud_native.PcoreBinding.Agent.Choice.{target_cpuset-IsFree}

-- The normal forms of the texts that were assigned
abbrev pub assigned_sets : List (PodInfo × Text) → List Text
assigned_sets [] = []
assigned_sets ((pod, target) ∷ assigned) = normalize_cpuset target ∷ assigned_sets assigned

abbrev pub AreTexts : List Text → List (PodInfo × Text) → Type 0
AreTexts pairs [] = Unit {0}
AreTexts pairs ((pod, target) ∷ assigned) = (has_text pairs target ≡ true) × AreTexts pairs assigned

-- What was assigned are texts of the agent's pairs, no two with the same set of CPUs, and the
-- occupied sets are theirs.
pub record IsExclusive (a : Agent) (pass : Pass) : Type 0 where
  pub occupied : pass.occupied ≡ assigned_sets pass.assigned
  pub no_repeat : NoRepeat (assigned_sets pass.assigned)
  pub pairs : AreTexts (texts a.sibling_pairs) pass.assigned

module _ (a : Agent) (system : System) where
  reconcile_current-IsExclusive :
      (pass : Pass) (pod : PodInfo) (paths : List String) (current : Option Text)
      → IsExclusive a pass
      → IsExclusive a (reconcile_current a system pass pod paths current)
  unfolding reconcile_current reconcile_target
  reconcile_current-IsExclusive pass pod paths none w = w
  reconcile_current-IsExclusive pass pod paths (some current) w =
      elim (Bool-cases (is_empty (target_cpuset a current pass.occupied))) [
        | inl nothing ↦ rw nothing w
        | inr target ↦
            let free = target_cpuset-IsFree a current pass.occupied target in
            rw target (record {
              occupied =
                  ap (λ ts. normalize_cpuset (target_cpuset a current pass.occupied) ∷ ts)
                    w.occupied;
              no_repeat = (
                subst
                    (λ ts.
                      has_text ts (normalize_cpuset (target_cpuset a current pass.occupied))
                      ≡ false)
                    w.occupied free.1,
                w.no_repeat,
              );
              pairs = (free.0, w.pairs);
            })
      ]

  reconcile_paths-IsExclusive :
      (pass : Pass) (pod : PodInfo) (paths : Option (List String))
      → IsExclusive a pass
      → IsExclusive a (reconcile_paths a system pass pod paths)
  unfolding reconcile_paths
  reconcile_paths-IsExclusive pass pod none w = w
  reconcile_paths-IsExclusive pass pod (some []) w = w
  reconcile_paths-IsExclusive pass pod (some (path ∷ paths)) w =
      reconcile_current-IsExclusive pass pod (path ∷ paths) (read_cpuset pass.files path) w

  reconcile_pod-IsExclusive :
      (pass : Pass) (pod : PodInfo)
      → IsExclusive a pass
      → IsExclusive a (reconcile_pod a system pass pod)
  unfolding reconcile_pod
  reconcile_pod-IsExclusive pass pod w = elim (Bool-cases (match a pod)) [
    | inr other ↦ rw other w
    | inl matched ↦ elim (Bool-cases (str_eq pod.cgroup_path "")) [
      | inl nowhere ↦ rw (matched, nowhere) w
      | inr given ↦
          rw (matched, given)
            (reconcile_paths-IsExclusive pass pod
              (system.resolve_cgroup_path_candidates pod.cgroup_path pod.id) w)
    ]
  ]

  pub reconcile_pods-IsExclusive :
      (pass : Pass) (pods : List PodInfo)
      → IsExclusive a pass
      → IsExclusive a (reconcile_pods a system pass pods)
  unfolding reconcile_pods
  reconcile_pods-IsExclusive pass [] w = w
  reconcile_pods-IsExclusive pass (pod ∷ pods) w =
      reconcile_pods-IsExclusive (reconcile_pod a system pass pod) pods
        (reconcile_pod-IsExclusive pass pod w)

-- One pass of reconcileOnce, over any pods, files and answers of the system, gives pods only texts
-- of the agent's sibling pairs, and no two pods get the same set of CPUs.
pub reconcile_once-IsExclusive :
    (a : Agent) (system : System) (files : Files) → IsExclusive a (reconcile_once a system files)
unfolding reconcile_once
reconcile_once-IsExclusive a system files =
    reconcile_pods-IsExclusive a system (record { files = files; occupied = []; assigned = [] })
      (list_pods a) (record { occupied = refl; no_repeat = _; pairs = _ })
