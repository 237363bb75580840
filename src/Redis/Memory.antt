-- ===== src/Redis/Memory.antt =====
-- An in-memory server that satisfies the laws, for use at concrete inputs.
use fuel_monitoring.Redis.Interface.{Redis, RedisLaws}
use fuel_monitoring.Prelude.{
  ℕ, ◌≡◌, refl, ◌≢◌, ◌⊎◌, inl, inr, Bool, true, false, not, ◌&&◌, Option, none, some, List, [], ◌∷◌,
  Text, text_eq, text_eq→eq, text_eq_refl, length, keep_if, leb, if◌then◌else◌, arith, ◌==◌,
}

pub record Memory (K V : Type 0) : Type 0 where
  pub members : K → Text → Bool
  pub values : K → Option V
  pub scores : K → List (ℕ × ℕ)

module _ {K V : Type 0} (key_eq : K → K → Bool) where
  abbrev pub add_member : K → Text → Bool → Memory K V → Memory K V
  add_member k m b s = record s {
    members = λ j n. if key_eq k j && text_eq m n then b else s.members j n;
  }

  abbrev pub forget : K → Memory K V → Memory K V
  forget k s = record {
    members = λ j n. if key_eq k j then false else s.members j n;
    values = λ j. if key_eq k j then none else s.values j;
    scores = λ j. if key_eq k j then [] else s.scores j;
  }

  abbrev pub put : K → V → Memory K V → Memory K V
  put k v s = record (forget k s) { values = λ j. if key_eq k j then some v else s.values j }

  abbrev put_new : K → V → Option V → Memory K V → Bool × Memory K V
  put_new k v none s = (true, put k v s)
  put_new k v (some w) s = (false, s)

  abbrev pub is_some : Option V → Bool
  is_some none = false
  is_some (some v) = true

  abbrev rescore : K → List (ℕ × ℕ) → Memory K V → Memory K V
  rescore k l s = record s { scores = λ j. if key_eq k j then l else s.scores j }

  abbrev pub memory_redis : Redis K V
  memory_redis = record {
    Store = Memory K V;
    sismember = λ k m s. s.members k m;
    sadd = λ k m s. add_member k m true s;
    srem = λ k m s. add_member k m false s;
    get = λ k s. s.values k;
    set_ex = λ k v t s. put k v s;
    set_nx_ex = λ k v t s. put_new k v (s.values k) s;
    exists = λ k s. is_some (s.values k);
    delete = forget;
    zremrangebyscore =
        λ k lo hi s. rescore k (keep_if (λ e. not (leb lo e.1 && leb e.1 hi)) (s.scores k)) s;
    zcard = λ k s. length (s.scores k);
    zadd = λ k m v s. rescore k ((m, v) ∷ keep_if (λ e. not (e.0 == m)) (s.scores k)) s;
    expire = λ k t s. s;
  }

module _ {K : Type 0} (key_eq : K → K → Bool) (sound : (a b : K) → key_eq a b ≡ true → a ≡ b) where
  -- A pair of another key or another member fails the test on both.
  pair_ne : (k j : K) (m n : Text) → (k ≢ j) ⊎ (m ≢ n) → (key_eq k j && text_eq m n) ≡ false
  pair_ne k j m n (inl h) = ground (arith, sound k j)
  pair_ne k j m n (inr h) = ground (arith, text_eq→eq m n)

  ne_test : (k j : K) → k ≢ j → key_eq k j ≡ false
  ne_test k j h = ground (arith, sound k j)

module _ {K V : Type 0} (key_eq : K → K → Bool) where
  abbrev server : Redis K V
  server = memory_redis key_eq

  set_nx_else :
      (k j : K) (n : Text) (v : V) (o : Option V) (s : server.Store)
      → key_eq k j ≡ false
      → (put_new key_eq k v o s).1.members j n ≡ s.members j n
  set_nx_else k j n v none s h = rw h
  set_nx_else k j n v (some w) s h = refl

  -- `SET NX` by the value that is there.
  exists-put_new :
      (k : K) (v : V) (o : Option V) (s : server.Store)
      → key_eq k k ≡ true
      → s.values k ≡ o
      → server.exists k (put_new key_eq k v o s).1 ≡ true
  exists-put_new k v none s h e = rw h
  exists-put_new k v (some w) s h e = rw e

  put_new-exists :
      (k : K) (v : V) (o : Option V) (s : server.Store)
      → is_some key_eq o ≡ true
      → (put_new key_eq k v o s).0 ≡ false
  put_new-exists k v none s h = absurd (cc)
  put_new-exists k v (some w) s h = refl

  put_new-absent :
      (k : K) (v : V) (o : Option V) (s : server.Store)
      → is_some key_eq o ≡ false
      → (put_new key_eq k v o s).0 ≡ true
  put_new-absent k v none s h = refl
  put_new-absent k v (some w) s h = absurd (cc)

  pub memory_laws :
      ((a b : K) → key_eq a b ≡ true → a ≡ b) → ((a : K) → key_eq a a ≡ true) → RedisLaws server
  memory_laws sound reflexive = record {
    sismember-sadd_self = λ k m s. rw (reflexive k, text_eq_refl m);
    sismember-sadd_ne = λ k j m n s h. rw (pair_ne key_eq sound k j m n h);
    sismember-srem_self = λ k m s. rw (reflexive k, text_eq_refl m);
    sismember-srem_ne = λ k j m n s h. rw (pair_ne key_eq sound k j m n h);
    sismember-delete_ne = λ k j n s h. rw (ne_test key_eq sound k j h);
    sismember-set_ex_ne = λ k j n v t s h. rw (ne_test key_eq sound k j h);
    sismember-set_nx_ne =
        λ k j n v t s h. set_nx_else k j n v (s.values k) s (ne_test key_eq sound k j h);
    set_nx-delete = λ k v t s. rw (reflexive k);
    get-delete = λ k s. rw (reflexive k);
    get-set_ex_self = λ k v t s. rw (reflexive k);
    get-set_ex_ne = λ k j v t s h. rw (ne_test key_eq sound k j h);
    exists-set_ex = λ k v t s. rw (reflexive k);
    exists-set_nx = λ k v t s. exists-put_new k v (s.values k) s (reflexive k) refl;
    set_nx-exists = λ k v t s h. put_new-exists k v (s.values k) s h;
    set_nx-absent = λ k v t s h. put_new-absent k v (s.values k) s h;
  }
