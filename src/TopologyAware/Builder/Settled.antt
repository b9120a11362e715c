-- ===== src/TopologyAware/Builder/Settled.antt =====
-- What topology_builder.go builds: parents stand before their children, and nothing is granted.
use cloud_native.Prelude.{
  ℕ, zero, suc, ◌≤◌, ◌<◌, Bool, not, ltb, ◌||◌, Option, none, some, List, [], ◌∷◌, ◌++◌, ◌≡◌, refl,
  ap, ◌∙◌, subst, arith, ◌==◌, ==_iff, length, length-append, Bool-cases, inl, inr, if◌then◌else◌,
}
use cloud_native.TopologyAware.Outcome.{ok, ◌>>=◌, >>=-eq-ok}
use cloud_native.TopologyAware.CpuSets.{CpuSetLib}
use cloud_native.TopologyAware.Request.Devices.{is_empty}
use cloud_native.TopologyAware.Supply.{MemInfo, Supply, new_supply, clone}
use cloud_native.TopologyAware.Tree.{NodeKind, Node, Nodes, parent_of, IsOrdered}
use cloud_native.TopologyAware.Builder.{
  Hardware, Tree, add_child, link_parent, new_node, create_socket_nodes, place_of, create_numa_node,
  create_numa_nodes, create_cluster_node, create_clusters_at, create_clusters, create_cluster_nodes,
  empty_tree, virtual_root, root_or, build_nodes,
}

module _ (lib : CpuSetLib) where
  length-add_child :
      (nodes : Nodes lib) (parent child : ℕ)
      → length (add_child lib nodes parent child) ≡ length nodes
  unfolding add_child
  length-add_child [] parent child = refl
  length-add_child (n ∷ nodes) zero child = refl
  length-add_child (n ∷ nodes) (suc parent) child = ap suc (length-add_child nodes parent child)

  parent_of-add_child :
      (nodes : Nodes lib) (parent child r : ℕ)
      → parent_of lib (add_child lib nodes parent child) r ≡ parent_of lib nodes r
  unfolding add_child parent_of
  parent_of-add_child [] parent child r = refl
  parent_of-add_child (n ∷ nodes) zero child zero = refl
  parent_of-add_child (n ∷ nodes) zero child (suc r) = refl
  parent_of-add_child (n ∷ nodes) (suc parent) child zero = refl
  parent_of-add_child (n ∷ nodes) (suc parent) child (suc r) =
      parent_of-add_child nodes parent child r

  parent_of-append :
      (nodes : Nodes lib) (n : Node lib) (r : ℕ)
      → parent_of lib (nodes ++ n ∷ []) r
        ≡ (if r == length nodes then n.parent else parent_of lib nodes r)
  unfolding parent_of
  parent_of-append [] n zero = refl
  parent_of-append [] n (suc r) = ground arith
  parent_of-append (m ∷ nodes) n zero = ground arith
  parent_of-append (m ∷ nodes) n (suc r) = ground (arith, parent_of-append nodes n r)

  abbrev Below : ℕ → Option ℕ → Type 0
  Below n none = Unit {0}
  Below n (some r) = r < n

  parent_of-link_parent :
      (nodes : Nodes lib) (parent : Option ℕ) (n : Node lib) (r : ℕ)
      → parent_of lib (link_parent lib nodes parent n) r
        ≡ (if r == length nodes then n.parent else parent_of lib nodes r)
  unfolding link_parent
  parent_of-link_parent nodes none n r = parent_of-append nodes (record n { depth = 0 }) r
  parent_of-link_parent nodes (some parent) n r =
      parent_of-add_child _ parent (length nodes) r ∙ parent_of-append nodes _ r

  length-snoc : (nodes : Nodes lib) (n : Node lib) → length (nodes ++ n ∷ []) ≡ suc (length nodes)
  length-snoc nodes n = omega (arith, length-append nodes (n ∷ []))

  length-link_parent :
      (nodes : Nodes lib) (parent : Option ℕ) (n : Node lib)
      → length (link_parent lib nodes parent n) ≡ suc (length nodes)
  unfolding link_parent
  length-link_parent nodes none n = length-snoc nodes _
  length-link_parent nodes (some parent) n =
      length-add_child _ parent (length nodes) ∙ length-snoc nodes _

  IsOrdered-link_parent :
      (nodes : Nodes lib) (parent : Option ℕ) (n : Node lib)
      → IsOrdered lib nodes
      → n.parent ≡ parent
      → Below (length nodes) parent
      → IsOrdered lib (link_parent lib nodes parent n)
  IsOrdered-link_parent nodes none n w e below = record {
    parent_lt = λ r p h. ground (arith, parent_of-link_parent nodes none n r, w.parent_lt r p);
  }
  IsOrdered-link_parent nodes (some parent) n w e below = record {
    parent_lt = λ r p h. ground (
      arith,
      parent_of-link_parent nodes (some parent) n r,
      w.parent_lt r p,
      ==_iff r (length nodes),
    );
  }

  -- The supply of the place `a`, with nothing granted
  pub record IsUnused (a : ℕ) (s : Supply lib) : Type 0 where
    pub named : s.node ≡ a
    pub shared : s.granted_shared ≡ 0
    pub by_request : s.granted_cpu_by_request ≡ 0
    pub by_limit : s.granted_cpu_by_limit ≡ 0
    pub memory : s.granted_memory ≡ 0

  pub record IsFresh (t : Tree lib) : Type 0 where
    pub ordered : IsOrdered lib t.nodes
    pub unused : (a : ℕ) → IsUnused a (t.free a)

  -- A tree with places that stand in it
  abbrev AllBelow : ℕ → List (ℕ × ℕ) → Type 0
  AllBelow n [] = Unit {0}
  AllBelow n ((id, place) ∷ places) = (place < n) × AllBelow n places

  AllBelow-mono : (m n : ℕ) (places : List (ℕ × ℕ)) → m ≤ n → AllBelow m places → AllBelow n places
  AllBelow-mono m n [] h b = _
  AllBelow-mono m n ((id, place) ∷ places) h b =
      (omega (arith, b.0), AllBelow-mono m n places h b.1)

  place_of-Below :
      (id n : ℕ) (places : List (ℕ × ℕ)) → AllBelow n places → Below n (place_of lib id places)
  unfolding place_of
  place_of-Below id n [] b = _
  place_of-Below id n ((k, place) ∷ places) b = elim (Bool-cases (k == id)) [
    | inl same ↦ rw same b.0
    | inr other ↦ rw other (place_of-Below id n places b.1)
  ]

  IsFresh-new_node :
      (cpus isolated : lib.CpuSet) (t : Tree lib) (kind : NodeKind) (parent : Option ℕ) (numa : ℕ)
      (info : Option (MemInfo lib))
      → IsFresh t
      → Below (length t.nodes) parent
      → IsFresh (new_node lib isolated t kind parent numa info cpus)
  unfolding new_node clone new_supply
  IsFresh-new_node cpus isolated t kind parent numa info w below = record {
    ordered = IsOrdered-link_parent t.nodes parent _ w.ordered refl below;
    unused = λ a. elim (Bool-cases (length t.nodes == a)) [
      | inl new ↦
          let e : length t.nodes ≡ a = ground arith in
          rw new
            (record { named = e; shared = refl; by_request = refl; by_limit = refl; memory = refl })
      | inr old ↦ rw old (w.unused a)
    ];
  }

  length-new_node :
      (cpus isolated : lib.CpuSet) (t : Tree lib) (kind : NodeKind) (parent : Option ℕ) (numa : ℕ)
      (info : Option (MemInfo lib))
      → length (new_node lib isolated t kind parent numa info cpus).nodes ≡ suc (length t.nodes)
  unfolding new_node
  length-new_node cpus isolated t kind parent numa info = length-link_parent t.nodes parent _

  -- A tree built so far, whose root and listed places stand in it
  record IsGrown (t : Tree lib) (places : List (ℕ × ℕ)) : Type 0 where
    pub fresh : IsFresh t
    pub root : Below (length t.nodes) t.root
    pub below : AllBelow (length t.nodes) places

  root_or-Below : (r : Option ℕ) (m n : ℕ) → Below m r → m < n → Below n (root_or lib r m)
  unfolding root_or
  root_or-Below none m n b h = h
  root_or-Below (some r) m n b h = omega (arith, b)

  IsGrown-create_socket_nodes :
      (hw : Hardware lib) (ids : List ℕ) (t : Tree lib) (sockets : List (ℕ × ℕ))
      → IsGrown t sockets
      → IsGrown
          (create_socket_nodes lib hw ids t sockets).0
          (create_socket_nodes lib hw ids t sockets).1
  unfolding create_socket_nodes
  IsGrown-create_socket_nodes hw [] t sockets w = w
  IsGrown-create_socket_nodes hw (id ∷ ids) t sockets w =
      let pkg = hw.cpu_package id in
      let u =
        new_node lib hw.isolated t NodeKind.socket_node t.root 0 pkg.memory_info pkg.cpu_set in
      let longer =
        length-new_node pkg.cpu_set hw.isolated t NodeKind.socket_node t.root 0 pkg.memory_info in
      let f =
        IsFresh-new_node pkg.cpu_set hw.isolated t NodeKind.socket_node t.root 0 pkg.memory_info
          w.fresh w.root in
      IsGrown-create_socket_nodes hw ids (record u { root = root_or lib t.root (length t.nodes) })
        ((id, length t.nodes) ∷ sockets)
        (record {
          fresh = record { ordered = f.ordered; unused = f.unused };
          root =
              root_or-Below t.root (length t.nodes) (length u.nodes) w.root (omega (arith, longer));
          below = (
            omega (arith, longer),
            AllBelow-mono (length t.nodes) (length u.nodes) sockets (omega (arith, longer)) w.below,
          );
        })

  create_numa_node-IsFresh :
      (hw : Hardware lib) (id : ℕ) (t : Tree lib) (socket : Option ℕ) {u : Tree lib}
      → IsFresh t
      → Below (length t.nodes) socket
      → create_numa_node lib hw id t socket ≡ ok u
      → IsFresh u × (length u.nodes ≡ suc (length t.nodes))
  unfolding create_numa_node
  create_numa_node-IsFresh hw id t none w b h = cc
  create_numa_node-IsFresh hw id t (some socket) {u} w b h =
      let n = hw.node id in
      let e : new_node lib hw.isolated t NodeKind.numa_node (some socket) id n.memory_info n.cpu_set
          ≡ u =
        cc in
      subst (λ (u : Tree lib). IsFresh u × (length u.nodes ≡ suc (length t.nodes))) e
        (
          IsFresh-new_node n.cpu_set hw.isolated t NodeKind.numa_node (some socket) id n.memory_info
              w b,
          length-new_node n.cpu_set hw.isolated t NodeKind.numa_node (some socket) id n.memory_info,
        )

  IsGrown-create_numa_nodes :
      (hw : Hardware lib) (sockets : List (ℕ × ℕ)) (ids : List ℕ) (t : Tree lib)
      (numas : List (ℕ × ℕ)) {r : Tree lib × List (ℕ × ℕ)}
      → IsFresh t
      → AllBelow (length t.nodes) sockets
      → AllBelow (length t.nodes) numas
      → create_numa_nodes lib hw sockets ids t numas ≡ ok r
      → IsFresh r.0 × AllBelow (length r.0.nodes) r.1
  unfolding create_numa_nodes
  IsGrown-create_numa_nodes hw sockets [] t numas {r} w s n h =
      let e : (t, numas) ≡ r = cc in
      subst (λ (r : Tree lib × List (ℕ × ℕ)). IsFresh r.0 × AllBelow (length r.0.nodes) r.1) e
        (w, n)
  IsGrown-create_numa_nodes hw sockets (id ∷ ids) t numas {r} w s n h =
      let (u, made, rest) =
        >>=-eq-ok (create_numa_node lib hw id t (place_of lib (hw.node id).package_id sockets))
          (λ u. create_numa_nodes lib hw sockets ids u ((id, length t.nodes) ∷ numas)) h in
      let (f, longer) =
        create_numa_node-IsFresh hw id t (place_of lib (hw.node id).package_id sockets) w
          (place_of-Below (hw.node id).package_id (length t.nodes) sockets s) made in
      IsGrown-create_numa_nodes hw sockets ids u ((id, length t.nodes) ∷ numas) f
        (AllBelow-mono (length t.nodes) (length u.nodes) sockets (omega (arith, longer)) s)
        (
          omega (arith, longer),
          AllBelow-mono (length t.nodes) (length u.nodes) numas (omega (arith, longer)) n,
        )
        rest

  create_cluster_node-IsFresh :
      (hw : Hardware lib) (t : Tree lib) (numa : ℕ) (found : Option lib.CpuSet)
      → IsFresh t
      → numa < length t.nodes
      → IsFresh (create_cluster_node lib hw t numa found)
        × (length t.nodes ≤ length (create_cluster_node lib hw t numa found).nodes)
  unfolding create_cluster_node
  create_cluster_node-IsFresh hw t numa none w h = (w, omega arith)
  create_cluster_node-IsFresh hw t numa (some cpus) w h = (
    IsFresh-new_node cpus hw.isolated t NodeKind.cluster_node (some numa) 0 none w h,
    omega (arith, length-new_node cpus hw.isolated t NodeKind.cluster_node (some numa) 0 none),
  )

  IsFresh-create_clusters_at :
      (hw : Hardware lib) (numa : ℕ) (ids : List ℕ) (t : Tree lib)
      → IsFresh t
      → numa < length t.nodes
      → IsFresh (create_clusters_at lib hw numa ids t)
        × (length t.nodes ≤ length (create_clusters_at lib hw numa ids t).nodes)
  unfolding create_clusters_at
  IsFresh-create_clusters_at hw numa [] t w h = (w, omega arith)
  IsFresh-create_clusters_at hw numa (id ∷ ids) t w h =
      let (f, longer) = create_cluster_node-IsFresh hw t numa (hw.cluster id) w h in
      let rest =
        IsFresh-create_clusters_at hw numa ids (create_cluster_node lib hw t numa (hw.cluster id)) f
          (omega (arith, longer)) in
      (rest.0, omega (arith, longer, rest.1))

  IsFresh-create_clusters :
      (hw : Hardware lib) (numas : List (ℕ × ℕ)) (t : Tree lib)
      → IsFresh t
      → AllBelow (length t.nodes) numas
      → IsFresh (create_clusters lib hw numas t)
  unfolding create_clusters
  IsFresh-create_clusters hw [] t w b = w
  IsFresh-create_clusters hw ((id, numa) ∷ numas) t w b =
      let (f, longer) = IsFresh-create_clusters_at hw numa (hw.node_clusters id) t w b.0 in
      IsFresh-create_clusters hw numas (create_clusters_at lib hw numa (hw.node_clusters id) t) f
        (AllBelow-mono (length t.nodes) _ numas longer b.1)

  create_cluster_nodes-IsFresh :
      (hw : Hardware lib) (enabled : Bool) (numas : List (ℕ × ℕ)) (t : Tree lib)
      → IsFresh t
      → AllBelow (length t.nodes) numas
      → IsFresh (create_cluster_nodes lib hw enabled numas t)
  unfolding create_cluster_nodes
  create_cluster_nodes-IsFresh hw enabled numas t w b =
      elim (Bool-cases (not enabled || is_empty hw.cluster_ids)) [
        | inl off ↦ rw off w
        | inr on ↦ rw on (IsFresh-create_clusters hw numas t w b)
      ]

  empty_root : Below (length (empty_tree lib).nodes) (empty_tree lib).root
  unfolding empty_tree
  empty_root = _

  IsFresh-empty_tree : IsFresh (empty_tree lib)
  unfolding empty_tree parent_of
  IsFresh-empty_tree = record {
    ordered = record { parent_lt = λ r p h. cc };
    unused = λ a. record {
      named = refl;
      shared = refl;
      by_request = refl;
      by_limit = refl;
      memory = refl;
    };
  }

  IsGrown-virtual_root : (hw : Hardware lib) → IsGrown (virtual_root lib hw) []
  unfolding virtual_root
  IsGrown-virtual_root hw =
      let e = empty_tree lib in
      let longer =
        length-new_node hw.allowed_set hw.isolated e NodeKind.virtual_node none 0 hw.memory_info in
      let f =
        IsFresh-new_node hw.allowed_set hw.isolated e NodeKind.virtual_node none 0 hw.memory_info
          IsFresh-empty_tree _ in
      elim (Bool-cases (ltb 1 (length hw.package_ids))) [
        | inl many ↦ rw many (record {
          fresh = record { ordered = f.ordered; unused = f.unused };
          root = omega (arith, longer);
          below = _;
        })
        | inr one ↦ rw one (record { fresh = IsFresh-empty_tree; root = empty_root; below = _ })
      ]

  pub build_nodes-IsFresh :
      (hw : Hardware lib) (cluster_affinity : Bool) {t : Tree lib}
      → build_nodes lib hw cluster_affinity ≡ ok t
      → IsFresh t
  unfolding build_nodes create_cluster_nodes
  build_nodes-IsFresh hw cluster_affinity {t} h =
      let s = create_socket_nodes lib hw hw.package_ids (virtual_root lib hw) [] in
      let w =
        IsGrown-create_socket_nodes hw hw.package_ids (virtual_root lib hw) []
          (IsGrown-virtual_root hw) in
      let built : (create_numa_nodes lib hw s.1 hw.node_ids s.0 [] >>= λ r.
      ok (create_cluster_nodes lib hw cluster_affinity r.1 r.0))
          ≡ ok t =
        ground (arith, h) in
      let (r, made, last) =
        >>=-eq-ok (create_numa_nodes lib hw s.1 hw.node_ids s.0 [])
          (λ r. ok (create_cluster_nodes lib hw cluster_affinity r.1 r.0)) built in
      let (f, below) = IsGrown-create_numa_nodes hw s.1 hw.node_ids s.0 [] w.fresh w.below _ made in
      let e : create_cluster_nodes lib hw cluster_affinity r.1 r.0 ≡ t = cc in
      subst IsFresh e (create_cluster_nodes-IsFresh hw cluster_affinity r.1 r.0 f below)
