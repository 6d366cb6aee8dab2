-- ===== src/Jobs/Graph/Release.antt =====
-- The inner loop of `JobGraph::new`: the dependants of a visited job are released (core/jobs/src/lib.rs).
use pdf_platform.Common.Map.{insert}
use pdf_platform.Jobs.Graph.Counts.{degree-insert, occurrences}
use pdf_platform.Jobs.Graph.{degree, release_dependants}
use pdf_platform.Common.{
  ℕ, ◌%◌, ◌&&◌, ◌+◌, ◌++◌, ◌-◌, ◌<◌, ==_iff, List, [], ◌^◌, arith, if◌then◌else◌, ltb, true, ◌||◌,
  ◌∷◌, ◌≡◌, ◌≤◌,
}
use pdf_platform.Common.Keys.{
  contains, ◌==◌, ==_refl, Distinct, contains-append, snoc-Distinct, nat_eq,
}

-- What a release of `dependants` does to the degrees and the queue.
pub record IsReleased (dependants : List ℕ) (indegree : List (ℕ × ℕ)) (ready : List ℕ)
    (after : List (ℕ × ℕ) × List ℕ) : Type 0 where
  pub degrees : (id : ℕ) → degree id indegree ≡ degree id after.0 + occurrences id dependants
  pub queued :
      (id : ℕ)
      → contains id after.1
        ≡ (contains id ready || (ltb 0 (occurrences id dependants) && (degree id after.0 == 0)))
  pub distinct : Distinct after.1

-- A degree that is positive goes down by one, and does not wrap.
decrement : (n : ℕ) → 1 ≤ n → n < 2 ^ 64 → (n + (2 ^ 64 - 1)) % 2 ^ 64 + 1 ≡ n
decrement n h b = omega arith

-- A queued job has degree 0, and no dependant occurs more often than its degree says.
pub record IsCounted (dependants : List ℕ) (indegree : List (ℕ × ℕ)) (ready : List ℕ) : Type 0 where
  pub enough : (id : ℕ) → occurrences id dependants ≤ degree id indegree
  pub small : (id : ℕ) → degree id indegree < 2 ^ 64
  pub zeros : (id : ℕ) → contains id ready ≡ true → degree id indegree ≡ 0
  pub distinct_ready : Distinct ready

step-IsCounted :
    (d left : ℕ) (ds : List ℕ) (indegree : List (ℕ × ℕ)) (ready : List ℕ)
    → left + 1 ≡ degree d indegree
    → IsCounted (d ∷ ds) indegree ready
    → IsCounted ds (insert d left indegree) (if left == 0 then ready ++ d ∷ [] else ready)
unfolding occurrences contains
step-IsCounted d left ds indegree ready e h = record {
  enough = λ id. ground (arith, h.enough id, degree-insert d id left indegree, ==_iff d id);
  small = λ id. ground (arith, h.small id, degree-insert d id left indegree, ==_iff d id);
  zeros = λ id m. ground (
    arith,
    h.zeros id,
    degree-insert d id left indegree,
    ==_iff d id,
    contains-append id ready (d ∷ []),
  );
  distinct_ready = ground (arith, h.distinct_ready, snoc-Distinct d ready, h.zeros d);
}

pub release_dependants-IsReleased :
    (dependants : List ℕ) (indegree : List (ℕ × ℕ)) (ready : List ℕ)
    → IsCounted dependants indegree ready
    → IsReleased dependants indegree ready (release_dependants dependants indegree ready)
unfolding release_dependants occurrences contains
release_dependants-IsReleased [] indegree ready h = record {
  degrees = λ id. omega arith;
  queued = λ id. ground arith;
  distinct = h.distinct_ready;
}
release_dependants-IsReleased (d ∷ ds) indegree ready h =
    let left = (degree d indegree + (2 ^ 64 - 1)) % 2 ^ 64 in
    let self : (d == d) ≡ true = ==_refl d in
    let e : left + 1 ≡ degree d indegree =
      decrement (degree d indegree) (ground (arith, h.enough d)) (h.small d) in
    let ih =
      release_dependants-IsReleased ds (insert d left indegree)
        (if left == 0 then ready ++ d ∷ [] else ready)
        (step-IsCounted d left ds indegree ready e h) in
    record {
      degrees =
          λ id. ground (arith, ih.degrees id, degree-insert d id left indegree, ==_iff d id, e);
      queued = λ id. ground (
        arith,
        ih.queued id,
        ih.degrees id,
        degree-insert d id left indegree,
        ==_iff d id,
        e,
        contains-append id ready (d ∷ []),
        h.zeros id,
      );
      distinct = ih.distinct;
    }
