-- ===== src/Tests/Startup.antt =====
-- A run of a start that fails after the server has joined.
use mathlib.Core.List.{Memᴰ}
use flux_mesh.Base.{
  ◌++◌, ◌≡◌, ℕ, false, Option, none, some, List, [], ◌∷◌, nat_eq, Result, ok, err, pos, Str, codes,
  str_eq, str_beq, ◌≡◌, ◌⊎◌, inl, inr, refl, subst, ap, arith,
}
use flux_mesh.Config.{Config, validate_config}
use flux_mesh.Config.Accepted.{IsRunnable, validate_config-accepts}
use flux_mesh.Registry.Nodes.{Node}
use flux_mesh.Startup.Peers.{ArePeers, discover_gossip_peers, discover_gossip_peers-ArePeers}
use flux_mesh.Registry.Cluster.{Member}
use flux_mesh.Startup.{App, start_etcd_and_client}
use flux_mesh.Startup.Join.{Members}
use flux_mesh.Startup.Accounted.{IsClustered, IsSettled, start_etcd_and_client-IsSettled}

-- The cluster is the list of its members' numbers; a new member is 7.
abbrev own : Str → Member
own url = record { id = 7; name = []; is_learner = false; peer_urls = url ∷ []; client_urls = [] }

abbrev removes : Members (List ℕ) ℕ
removes = record {
  connect = λ seeds s. (s, none);
  member_add = λ seeds url s. (7 ∷ s, ok (7, own url ∷ []));
  member_remove = λ seeds id s. (s, some 1);
}

abbrev broken : Config → Str → List ℕ → List ℕ × Option ℕ
broken cfg initial s = (s, some 2)

abbrev answered : Result ℕ (ℕ × List Member) → List Member
answered (err e) = []
answered (ok p) = p.1

abbrev Holds : List ℕ → ℕ → Type 0
Holds s j = Memᴰ j s

split_head : (s : List ℕ) (j : ℕ) → Memᴰ j (7 ∷ s) → Memᴰ j s ⊎ (j ≡ 7)
split_head s j (Memᴰ.head q) = inr q
split_head s j (Memᴰ.tail m) = inl m

removes-IsClustered : IsClustered removes broken (λ s. s) Holds
removes-IsClustered = record {
  connect_law = λ seeds s j h. h;
  start_law = λ cfg initial s j h. h;
  close_law = λ s j h. h;
  add_law = λ seeds url s id ms j q h. elim (split_head s j h) [
    | inl m ↦ inl m
    | inr e ↦ inr (ground arith)
  ];
  remove_law = λ seeds id s j h. h;
  removed_law = λ seeds id s j q h. ground arith;
  listed_law = λ seeds url s id ms q.
      (own url, subst (Memᴰ (own url)) (ap answered q) (Memᴰ.head refl), refl, refl);
}

abbrev joining : Config
joining = record {
  role = codes "server";
  cluster_state = codes "existing";
  node_id = codes "n";
  ip = [];
  version = [];
  data_dir = [];
  admin_addr = [];
  client_listen_url = [];
  client_advertise_url = codes "c";
  peer_listen_url = [];
  peer_advertise_url = codes "p";
  seed_endpoints = codes "s" ∷ [];
  lease_ttl_seconds = pos 10;
}

abbrev fresh : App (List ℕ)
fresh = record { cluster = 3 ∷ []; tasks = []; embedded = false; connected = false }

start_etcd_and_client-IsSettled_example :
    IsSettled removes broken
      (λ s. s)
      Holds
      removes-IsClustered
      joining
      fresh
      (start_etcd_and_client removes broken (λ s. s) joining 5 fresh)
unfolding str_beq
start_etcd_and_client-IsSettled_example =
    start_etcd_and_client-IsSettled removes broken (λ s. s) Holds removes-IsClustered joining 5
      fresh refl refl refl

-- Three nodes: the own one, one at an address, and one without.
abbrev joined_to : Str → Str
joined_to ip = ip ++ codes ":7946"

abbrev node_at : Str → Str → Node ℕ
node_at id ip = record {
  id = id;
  ip = ip;
  version = [];
  node_status = record { node_role = []; etcd_role = []; node_status = [] };
  sys_load = record {
    cpu_usage = 0;
    memory_usage = 0;
    system_load_1m = 0;
    system_load_5m = 0;
    system_load_15m = 0;
  };
}

abbrev three_nodes : List (Node ℕ)
three_nodes =
    node_at (codes "n") (codes "10.0.0.1")
    ∷ node_at (codes "m") (codes "10.0.0.2")
    ∷ node_at (codes "o") []
    ∷ []

discover_gossip_peers-ArePeers_example :
    ArePeers joined_to
      (codes "n")
      three_nodes
      (discover_gossip_peers joined_to (codes "n") {E = ℕ} (some (ok three_nodes)))
discover_gossip_peers-ArePeers_example =
    discover_gossip_peers-ArePeers joined_to (codes "n") ℕ three_nodes

validate_config-accepts_example :
    (validate_config joining ≡ none → IsRunnable joining)
    × (IsRunnable joining → validate_config joining ≡ none)
validate_config-accepts_example = validate_config-accepts joining
