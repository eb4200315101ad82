-- ===== src/Registry/Cluster/Status.antt =====
-- What `ClusterStatus` of internal/registry/nodes.go reports of the members.
use mathlib.Core.List.{Perm}
use flux_mesh.Base.{
  ℕ, false, Option, none, some, List, [], ◌∷◌, map, if◌then◌else◌, ◌==◌, codes, ap, nat_eq, Result,
  ok, err, str_eq, str_beq_iff, str_lt_asymm, str_lt_trans, str_lt_connex, str_lt_irrefl, is_empty,
  ◌≡◌, refl, subst, Bool-cases, inl, inr, arith,
}
use flux_mesh.Base.Sorting.{
  IsWeakOrder, IsSorted, sort_stable, sort_stable-IsSorted, sort_stable-perm,
}
use flux_mesh.Registry.Cluster.{
  ClusterStatus, ClusterMemberStatus, member_status, member_role, Member, EndpointStatus, Client,
  first_endpoint, member_statuses, member_before, cluster_status, status_at, status_of,
}

member_before-IsWeakOrder : IsWeakOrder member_before
unfolding member_before
member_before-IsWeakOrder = record {
  asymm = λ a b h.
      ground
        (arith, str_lt_asymm a.name b.name, str_beq_iff a.name b.name, str_beq_iff b.name a.name);
  not_trans = λ a b c h k. ground (
    arith,
    str_beq_iff c.name a.name,
    str_beq_iff b.name a.name,
    str_beq_iff c.name b.name,
    str_lt_connex a.name b.name,
    str_lt_connex b.name c.name,
    str_lt_asymm c.name a.name,
    str_lt_trans c.name a.name b.name,
    str_lt_trans a.name b.name c.name,
    str_lt_irrefl a.name,
  );
}

-- The members that are not nil.
abbrev pub present : List (Option Member) → List Member
present [] = []
present (none ∷ ms) = present ms
present (some m ∷ ms) = m ∷ present ms

-- What is to be reported of a member: it is a learner, or the leader, or else a follower.
abbrev pub reported : ℕ → Member → ClusterMemberStatus
reported leader m = record {
  id = m.id;
  name = m.name;
  role =
      if m.is_learner
      then codes "learner"
      else if m.id == leader
      then codes "leader"
      else codes "follower";
  is_learner = m.is_learner;
  peer_urls = m.peer_urls;
  client_urls = m.client_urls;
}

member_statuses-reported :
    (leader : ℕ) (ms : List (Option Member))
    → member_statuses leader ms ≡ map (reported leader) (present ms)
unfolding member_statuses member_status member_role
member_statuses-reported leader [] = refl
member_statuses-reported leader (none ∷ ms) = member_statuses-reported leader ms
member_statuses-reported leader (some m ∷ ms) =
    ap (◌∷◌ (reported leader m)) (member_statuses-reported leader ms)

module _ {S E : Type 0} (client : Client S E) where
  -- What the status of an endpoint and the list of members say of the report.
  abbrev pub IsReport : EndpointStatus → List (Option Member) → ClusterStatus → Type 0
  IsReport status members report =
      (report ≡ record {
        endpoint = first_endpoint client.endpoints;
        cluster_id = status.cluster_id;
        current_member_id = status.member_id;
        leader_id = status.leader;
        raft_term = status.raft_term;
        raft_index = status.raft_index;
        raft_applied_index = status.raft_applied_index;
        db_size = status.db_size;
        members = report.members;
      })
      × IsSorted member_before report.members
      × Perm report.members (map (reported status.leader) (present members))

  members-IsReport :
      (s : S) (status : EndpointStatus) (report : ClusterStatus)
      (r : Result E (List (Option Member)))
      → client.member_list s ≡ r
      → status_of client (first_endpoint client.endpoints) status r ≡ ok report
      → (members : List (Option Member)) × (client.member_list s ≡ ok members)
        × IsReport status members report
  unfolding status_of
  members-IsReport s status report (err e) h g = ground arith
  members-IsReport s status report (ok members) h g =
      let ms = member_statuses status.leader members in
      let q : sort_stable member_before ms ≡ report.members = ground arith in
      (
        members,
        h,
        (
          ground arith,
          subst (IsSorted member_before) q
              (sort_stable-IsSorted member_before member_before-IsWeakOrder ms),
          subst (Perm report.members) (member_statuses-reported status.leader members)
              (subst (λ l. Perm l ms) q (sort_stable-perm member_before ms)),
        ),
      )

  status-IsReport :
      (s : S) (report : ClusterStatus) (r : Result E EndpointStatus)
      → client.status (first_endpoint client.endpoints) s ≡ r
      → status_at client (first_endpoint client.endpoints) s r ≡ ok report
      → (status : EndpointStatus) × (members : List (Option Member)) × (client.status
            (first_endpoint client.endpoints)
            s
          ≡ ok status)
        × (client.member_list s ≡ ok members)
        × IsReport status members report
  unfolding status_at
  status-IsReport s report (err e) h g = ground arith
  status-IsReport s report (ok status) h g =
      let (members, listed, is) = members-IsReport s status report (client.member_list s) refl g in
      (status, members, h, listed, is)

  -- A status that is returned is that of the first endpoint with a text: it has all that the
  -- endpoint reports of itself, and each listed member that is not nil once, as a learner if it is
  -- one, else as the leader if it has the reported leader's number, else as a follower, ordered by
  -- name and then by number.
  pub cluster_status-IsReport :
      (s : S) (report : ClusterStatus)
      → cluster_status client s ≡ ok report
      → (is_empty (first_endpoint client.endpoints) ≡ false)
        × (status : EndpointStatus) × (members : List (Option Member)) × (client.status
              (first_endpoint client.endpoints)
              s
            ≡ ok status)
        × (client.member_list s ≡ ok members)
        × IsReport status members report
  unfolding cluster_status
  cluster_status-IsReport s report h =
      let endpoint = first_endpoint client.endpoints in
      elim (Bool-cases (is_empty endpoint)) [
        | inl y ↦ let q = rw y at h in ground arith
        | inr n ↦
            let (status, members, answered, listed, is) =
              status-IsReport s report (client.status endpoint s) refl (rw n at h) in
            (n, status, members, answered, listed, is)
      ]
