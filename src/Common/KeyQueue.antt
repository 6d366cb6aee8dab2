-- ===== src/Common/KeyQueue.antt =====
-- A recency queue kept beside a map, as the LRU caches of the repository do: the queue holds exactly
-- the keys of the map, each once. Each lemma is one way in which the caches change both.
use pdf_platform.Common.{
  ◌≡◌, refl, ◌∙◌, Bool, true, false, not, ◌&&◌, List, [], ◌∷◌, ◌++◌, arith, length, length-append,
  subst, if◌then◌else◌, none,
}
use pdf_platform.Common.Keys.{
  Eq, ◌==◌, contains, retain_ne, Distinct, contains-retain_ne, retain_ne-Distinct, length-retain_ne,
  contains-append, snoc-Distinct, ==_refl, retain_ne_absent,
}
use pdf_platform.Common.Map.{
  insert, remove, has, keys, contains-keys-insert, insert-Distinct, keys-remove,
  length-insert_absent, length-remove_present, remove_absent, lookup, lookup-remove, lookup_absent,
}

pub record InStep {ℓ} {K V : Type ℓ} ⦃e : Eq K⦄ (queue : List K) (m : List (K × V)) : Type ℓ where
  pub queue_distinct : Distinct queue
  pub keys_distinct : Distinct (keys m)
  pub same_keys : (k : K) → contains k queue ≡ has k m
  pub same_length : length m ≡ length queue

module _ {ℓ} {K : Type ℓ} ⦃e : Eq K⦄ where
  retain_ne_front : (k : K) (rest : List K) → Distinct (k ∷ rest) → retain_ne k (k ∷ rest) ≡ rest
  unfolding retain_ne
  retain_ne_front k rest d = ground (arith, ==_refl k, retain_ne_absent k rest)

module _ {ℓ} {K V : Type ℓ} ⦃e : Eq K⦄ where
  pub empty-InStep : InStep {K = K} {V = V} [] []
  empty-InStep = record {
    queue_distinct = tt;
    keys_distinct = tt;
    same_keys = λ k. refl;
    same_length = refl;
  }

  pub has-remove :
      (j k : K) (m : List (K × V))
      → Distinct (keys m)
      → has j (remove k m) ≡ (not (k == j) && has j m)
  has-remove j k m d = rw (keys-remove k m d) (contains-retain_ne j k (keys m))

  pub has-remove_self : (k : K) (m : List (K × V)) → Distinct (keys m) → has k (remove k m) ≡ false
  has-remove_self k m d = ground (arith, has-remove k k m d, ==_refl k)

  module _ (queue : List K) (m : List (K × V)) (s : InStep queue m) (k : K) where
    same_length-drop : (b : Bool) → has k m ≡ b → length (remove k m) ≡ length (retain_ne k queue)
    same_length-drop true h = omega (
      arith,
      length-remove_present k m h,
      length-retain_ne k queue s.queue_distinct (s.same_keys k ∙ h),
      s.same_length,
    )
    same_length-drop false h =
        rw (remove_absent k m h, retain_ne_absent k queue (s.same_keys k ∙ h)) s.same_length

    -- `remove`: the key leaves both.
    pub drop-InStep : InStep (retain_ne k queue) (remove k m)
    drop-InStep = record {
      queue_distinct = retain_ne-Distinct k queue s.queue_distinct;
      keys_distinct =
          rw (keys-remove k m s.keys_distinct) (retain_ne-Distinct k (keys m) s.keys_distinct);
      same_keys = λ j.
          ground
            (arith, contains-retain_ne j k queue, has-remove j k m s.keys_distinct, s.same_keys j);
      same_length = same_length-drop (has k m) refl;
    }

    -- What is found after `remove` is what the remaining queue names.
    pub lookup-drop :
        (j : K)
        → lookup j (remove k m) ≡ (if contains j (retain_ne k queue) then lookup j m else none)
    lookup-drop j = ground (
      arith,
      lookup-remove k j m s.keys_distinct,
      contains-retain_ne j k queue,
      s.same_keys j,
      lookup_absent j m,
    )

    -- `get` on a hit: the key moves to the back.
    pub promote-InStep : has k m ≡ true → InStep (retain_ne k queue ++ k ∷ []) m
    unfolding contains
    promote-InStep h = record {
      queue_distinct =
          snoc-Distinct k (retain_ne k queue) (retain_ne-Distinct k queue s.queue_distinct)
            (ground (arith, contains-retain_ne k k queue, ==_refl k));
      keys_distinct = s.keys_distinct;
      same_keys = λ j. ground (
        arith,
        contains-append j (retain_ne k queue) (k ∷ []),
        contains-retain_ne j k queue,
        s.same_keys j,
        e.eqb_iff k j,
      );
      same_length = omega (
        arith,
        length-append (retain_ne k queue) (k ∷ []),
        length-retain_ne k queue s.queue_distinct (s.same_keys k ∙ h),
        s.same_length,
      );
    }

    -- A new key goes to the back.
    pub push-InStep : (v : V) → has k m ≡ false → InStep (queue ++ k ∷ []) (insert k v m)
    unfolding contains
    push-InStep v h = record {
      queue_distinct = snoc-Distinct k queue s.queue_distinct (s.same_keys k ∙ h);
      keys_distinct = insert-Distinct k v m s.keys_distinct;
      same_keys = λ j.
          ground
            (arith, contains-append j queue (k ∷ []), contains-keys-insert j k v m, s.same_keys j);
      same_length =
          omega (arith, length-append queue (k ∷ []), length-insert_absent k v m h, s.same_length);
    }

  -- `evict_lru`: the key at the front leaves both.
  pub pop-InStep :
      (k : K) (rest : List K) (m : List (K × V)) → InStep (k ∷ rest) m → InStep rest (remove k m)
  pop-InStep k rest m s =
      subst (λ q. InStep q (remove k m)) (retain_ne_front k rest s.queue_distinct)
        (drop-InStep (k ∷ rest) m s k)

  pub lookup-pop :
      (k : K) (rest : List K) (m : List (K × V))
      → InStep (k ∷ rest) m
      → (j : K) → lookup j (remove k m) ≡ (if contains j rest then lookup j m else none)
  lookup-pop k rest m s j =
      subst (λ q. lookup j (remove k m) ≡ (if contains j q then lookup j m else none))
        (retain_ne_front k rest s.queue_distinct) (lookup-drop (k ∷ rest) m s k j)
