-- ===== src/Registry/Concurrency/Changes.antt =====
-- The changes of the registry of connections keep what always holds (src/promch/handlers/connection.py).
use prometheus_ch_exporter.Prelude.{
  ℕ, ◌<◌, ◌≡◌, refl, sym, ◌∙◌, ap, some, List, [], ◌∷◌, ◌++◌, arith, nat_eq, Bool-cases,
  Option-cases, inl, inr, ◌⊎◌,
}
use prometheus_ch_exporter.Cluster.Topology.{ConnectionSpec}
use prometheus_ch_exporter.Cluster.Topology.Pool.{IsPool, new_topology-IsPool}
use prometheus_ch_exporter.Cluster.Connection.{Connection, new_connection, close_connection}
use prometheus_ch_exporter.Registry.{Registry, change, pop, build, close_object}
use prometheus_ch_exporter.Registry.Keyed.{
  Key, same_key, same_key-eq, same_key_refl, find, objects, find-set, find-drop,
}
use prometheus_ch_exporter.Registry.Concurrency.Invariant.{
  IsSound, has_id-append, find-has_id, has_id-set, has_id-drop, find-drop-some, set_cases,
  set_keeps, close_all-IsClosed, close_all-IsPool,
}
use prometheus_ch_exporter.Registry.Concurrency.{has_id}

module _ (r : Registry) (closing late : List ℕ) (i : IsSound r closing late) where
  pub known_key : (k : Key) (id : ℕ) → find r.connections k ≡ some id → id < r.built
  known_key k id h = i.known id (find-has_id r.connections k id h)

  pub change-IsSound :
      (key : Key) (id : ℕ) (c : Connection)
      → find r.connections key ≡ some id
      → IsPool c.topology
      → IsSound (change r id c) closing late
  unfolding change
  change-IsSound key id c here p = record {
    known = i.known;
    single = i.single;
    pools = λ j below. elim (Bool-cases (nat_eq j id)) [
      | inl same ↦ rw same p
      | inr other ↦ rw other (i.pools j below)
    ];
    pending = i.pending;
    clean = λ j below dropped out timely. elim (Bool-cases (nat_eq j id)) [
      | inl same ↦ λ host n g. ground (arith, same, here, dropped key)
      | inr other ↦ rw other (i.clean j below dropped out timely)
    ];
  }

  pub pop-IsSound :
      (key : Key) (id : ℕ)
      → find r.connections key ≡ some id
      → IsSound (pop r key) (id ∷ closing) late
  unfolding pop
  pop-IsSound key id here = record {
    known = λ j h. i.known j (has_id-drop r.connections key j h);
    single = λ j k m hj hk.
        i.single j k m (find-drop-some r.connections key j m hj)
          (find-drop-some r.connections key k m hk);
    pools = i.pools;
    pending = λ j h. elim (Bool-cases (nat_eq j id)) [
      | inl same ↦ (
        ground (arith, same, known_key key id here),
        λ k there.
            let found = find-drop-some r.connections key k j there in
            let alike = i.single k key j found (here ∙ ap some (ground (arith, same))) in
            ground (arith, find-drop r.connections key k, alike, same_key_refl key, there),
      )
      | inr other ↦
          let old = i.pending j (ground (arith, h, other)) in
          (old.0, λ k there. old.1 k (find-drop-some r.connections key k j there))
    ];
    clean = λ j below dropped out timely.
        i.clean j below
          (λ k there. elim (Bool-cases (same_key key k)) [
            | inl same ↦ ground (arith, same_key-eq key k same, here, there, out)
            | inr other ↦ dropped k (find-drop r.connections key k ∙ rw other there)
          ])
          (ground (arith, out)) timely;
  }

  pub close-IsSound :
      (before after : List ℕ) (id : ℕ)
      → closing ≡ before ++ id ∷ after
      → IsSound (close_object r id) (before ++ after) late
  unfolding close_object change close_connection
  close-IsSound before after id same_list = record {
    known = i.known;
    single = i.single;
    pools = λ j below. elim (Bool-cases (nat_eq j id)) [
      | inl same ↦
          rw same (close_all-IsPool (r.heap id).topology (i.pools id (ground (arith, same, below))))
      | inr other ↦ rw other (i.pools j below)
    ];
    pending = λ j h. i.pending j (
        ground
          (arith, h, same_list, has_id-append before after j, has_id-append before (id ∷ after) j));
    clean = λ j below dropped out timely. elim (Bool-cases (nat_eq j id)) [
      | inl same ↦ rw same (close_all-IsClosed (r.heap id).topology)
      | inr other ↦ rw other (
          i.clean j below dropped
            (ground (
              arith,
              out,
              other,
              same_list,
              has_id-append before after j,
              has_id-append before (id ∷ after) j,
            ))
            timely)
    ];
  }

  pub clear-IsSound :
      IsSound (record r { connections = [] }) (objects r.connections ++ closing) late
  unfolding find
  clear-IsSound = record {
    known = λ j h. cc;
    single = λ j k m hj hk. cc;
    pools = i.pools;
    pending = λ j h. (
      elim (Bool-cases (has_id (objects r.connections) j)) [
        | inl there ↦ i.known j there
        | inr other ↦
            (i.pending j
              (ground (arith, h, other, has_id-append (objects r.connections) closing j))).0
      ],
      λ k there. cc,
    );
    clean = λ j below dropped out timely.
        i.clean j below
          (λ k there. ground (
            arith,
            find-has_id r.connections k j there,
            out,
            has_id-append (objects r.connections) closing j,
          ))
          (ground (arith, out, has_id-append (objects r.connections) closing j)) timely;
  }

  one_key :
      {j k key : Key} {id new : ℕ}
      → ((j ≡ key) × (id ≡ new)) ⊎ (find r.connections j ≡ some id)
      → ((k ≡ key) × (id ≡ new)) ⊎ (find r.connections k ≡ some id)
      → new ≡ r.built
      → j ≡ k
  one_key (inl a) (inl b) fresh = a.0 ∙ sym b.0
  one_key {k = k} {id = id} (inl a) (inr b) fresh = ground (arith, known_key k id b)
  one_key {j = j} {id = id} (inr a) (inl b) fresh = ground (arith, known_key j id a)
  one_key {j = j} {k = k} {id = id} (inr a) (inr b) fresh = i.single j k id a b

  pub build-IsSound :
      (key : Key) (spec : ConnectionSpec) (now : ℕ) → IsSound (build r key spec now).0 closing late
  unfolding build change new_connection
  build-IsSound key spec now = elim (Option-cases (find r.connections key)) [
    | inr (id, there) ↦ rw (there, build) i
    | inl nobody ↦
        rw (nobody, build)
          (record {
            known = λ j h. elim (has_id-set r.connections key r.built j h) [
              | inl new ↦ ground arith
              | inr old ↦ ground (arith, i.known j old)
            ];
            single = λ j k m hj hk.
                one_key (set_cases r.connections key r.built j m hj)
                  (set_cases r.connections key r.built k m hk) refl;
            pools = λ j below. elim (Bool-cases (nat_eq j r.built)) [
              | inl same ↦ rw same ((new_topology-IsPool spec now).0)
              | inr other ↦ rw other (i.pools j (ground (arith, below, other)))
            ];
            pending = λ j h.
                let old = i.pending j h in
                (
                  ground arith,
                  λ k there. elim (set_cases r.connections key r.built k j there) [
                    | inl new ↦ ground (arith, new, old.0)
                    | inr before ↦ old.1 k before
                  ],
                );
            clean = λ j below dropped out timely.
                let older =
                  i.clean j
                    (ground (
                      arith,
                      below,
                      dropped key,
                      find-set r.connections key r.built key,
                      same_key_refl key,
                    ))
                    (λ k there. dropped k (set_keeps r.connections key r.built k j nobody there))
                    out timely in
                elim (Bool-cases (nat_eq j r.built)) [
                  | inl same ↦ λ host n g. ground (
                    arith,
                    same,
                    dropped key,
                    find-set r.connections key r.built key,
                    same_key_refl key,
                  )
                  | inr other ↦ rw other older
                ];
          })
  ]
