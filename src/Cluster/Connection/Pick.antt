-- ===== src/Cluster/Connection/Pick.antt =====
-- What the random choice of a live node gives, whatever the random number
-- (src/promch/clickhouse/topology.py, `pick_one_live`).
use prometheus_ch_exporter.Prelude.{
  ℕ, zero, suc, ◌<◌, ◌≤◌, ◌%◌, String, ◌≡◌, ◌∙◌, ap, Bool, true, false, not, ◌&&◌, none, some, List,
  [], ◌∷◌, arith, eq_iff, eq_refl, contains, inl, inr, Bool-cases, keep_if, length, All, subst,
}
use prometheus_ch_exporter.Dict.{Dict, get, put, values, IsUnique}
use prometheus_ch_exporter.Cluster.Node.{Node}
use prometheus_ch_exporter.Cluster.Topology.{
  Topology, pick_one_live, candidates, choice, nth_from, store,
}
use prometheus_ch_exporter.Cluster.Topology.Pool.{IsPool}

-- A candidate, among nodes by their hosts.
abbrev pub is_candidate : (exclude : List String) → Node → Bool
is_candidate exclude n = n.alive && not (contains exclude n.host)

-- The number of nodes that pass.
abbrev pub count : (Node → Bool) → Dict Node → ℕ
count p nodes = length (keep_if p (values nodes))

nth_from-All :
    (P : Node → Type 0) (n : Node) (ms : List Node) (i : ℕ) → All P (n ∷ ms) → P (nth_from n ms i)
unfolding nth_from
nth_from-All P n [] i h = h.0
nth_from-All P n (m ∷ ms) zero h = h.0
nth_from-All P n (m ∷ ms) (suc i) h = nth_from-All P m ms i h.1

pub values-All :
    (P : Node → Type 0) (nodes : Dict Node)
    → IsUnique nodes
    → ((k : String) (n : Node) → get nodes k ≡ some n → P n)
    → All P (values nodes)
unfolding get
values-All P [] u h = tt
values-All P ((j, n) ∷ nodes) u h = (
  h j n (ground (arith, eq_refl j)),
  values-All P nodes u.1 (λ k m here. h k m (ground (arith, eq_iff j k, u.0))),
)

pub keep_if-All :
    (P : Node → Type 0) (p : Node → Bool) (ns : List Node)
    → All P ns
    → All (λ n. P n × (p n ≡ true)) (keep_if p ns)
keep_if-All P p [] h = tt
keep_if-All P p (n ∷ ns) h = elim (Bool-cases (p n)) [
  | inl passes ↦ rw passes ((h.0, passes), keep_if-All P p ns h.1)
  | inr fails ↦ rw fails (keep_if-All P p ns h.1)
]

choice-All :
    (P : Node → Type 0) (ns : List Node) (random : ℕ) (n : Node)
    → All P ns
    → choice ns random ≡ some n
    → P n
unfolding choice
choice-All P [] random n h c = cc
choice-All P (m ∷ ms) random n h c =
    let chosen : nth_from m ms (random % length (m ∷ ms)) ≡ n = cc in
    subst P chosen (nth_from-All P m ms (random % length (m ∷ ms)) h)

-- A node that is picked is the pool's node of its host, alive, and not excluded.
pub pick_one_live-some :
    (t : Topology) (exclude : List String) (random : ℕ) (n : Node)
    → IsPool t
    → pick_one_live t exclude random ≡ some n
    → (get t.nodes n.host ≡ some n) × (is_candidate exclude n ≡ true)
unfolding pick_one_live candidates
pick_one_live-some t exclude random n p c =
    choice-All (λ m. (get t.nodes m.host ≡ some m) × (is_candidate exclude m ≡ true))
      (keep_if (is_candidate exclude) (values t.nodes)) random n
      (keep_if-All (λ m. get t.nodes m.host ≡ some m) (is_candidate exclude) (values t.nodes)
        (values-All (λ m. get t.nodes m.host ≡ some m) t.nodes p.unique
          (λ k m here. ap (get t.nodes) (p.keyed k m here) ∙ here)))
      c

count-get :
    (p : Node → Bool) (nodes : Dict Node) (k : String) (n : Node)
    → get nodes k ≡ some n
    → p n ≡ true
    → 0 < count p nodes
unfolding get
count-get p [] k n here passes = cc
count-get p ((j, m) ∷ nodes) k n here passes = ground (arith, count-get p nodes k n)

-- No node is picked only where every node is down or excluded.
pub pick_one_live-none :
    (t : Topology) (exclude : List String) (random : ℕ) (k : String) (n : Node)
    → pick_one_live t exclude random ≡ none
    → get t.nodes k ≡ some n
    → is_candidate exclude n ≡ false
unfolding pick_one_live candidates choice
pick_one_live-none t exclude random k n c here = elim (Bool-cases (is_candidate exclude n)) [
  | inr fails ↦ fails
  | inl passes ↦ ground (arith, count-get (is_candidate exclude) t.nodes k n here passes)
]

pub count-weaker :
    (p q : Node → Bool) (nodes : Dict Node)
    → ((m : Node) → q m ≡ true → p m ≡ true)
    → count q nodes ≤ count p nodes
count-weaker p q [] w = ground arith
count-weaker p q ((j, m) ∷ nodes) w = ground (arith, count-weaker p q nodes w, w m)

-- A node that passes and becomes one that does not makes the count smaller.
count-put :
    (p q : Node → Bool) (nodes : Dict Node) (k : String) (n n' : Node)
    → ((m : Node) → q m ≡ true → p m ≡ true)
    → get nodes k ≡ some n
    → p n ≡ true
    → q n' ≡ false
    → count q (put nodes k n') < count p nodes
unfolding get put
count-put p q [] k n n' w here passes fails = cc
count-put p q ((j, m) ∷ nodes) k n n' w here passes fails =
    ground (arith, count-put p q nodes k n n' w, count-weaker p q nodes w, w m)

-- A failure of a node that was picked leaves fewer candidates.
pub fewer_candidates :
    (t : Topology) (tried : List String) (n n' : Node)
    → get t.nodes n.host ≡ some n
    → is_candidate tried n ≡ true
    → n'.host ≡ n.host
    → n'.alive ≡ false
    → count (is_candidate (n.host ∷ tried)) (store t n').nodes < count (is_candidate tried) t.nodes
fewer_candidates t tried n n' here passes same dead =
    count-put (is_candidate tried) (is_candidate (n.host ∷ tried)) t.nodes n'.host n n'
      (λ m h. ground arith) (rw same here) passes (ground arith)
