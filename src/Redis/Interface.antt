-- ===== src/Redis/Interface.antt =====
-- The Redis commands that the program sends, with keys `K` and string values `V`. A command that
-- changes the server returns the new store; what expires between two calls is the server's.
use fuel_monitoring.Prelude.{ℕ, ◌≡◌, ◌≢◌, ◌⊎◌, Bool, true, false, Option, none, some, Text}

pub record Redis (K V : Type 0) : Type 1 where
  pub Store : Type 0
  pub sismember : K → Text → Store → Bool
  pub sadd : K → Text → Store → Store
  pub srem : K → Text → Store → Store
  pub get : K → Store → Option V
  -- `SET key value EX seconds`
  pub set_ex : K → V → ℕ → Store → Store
  -- `SET key value NX EX seconds`: whether the key was set
  pub set_nx_ex : K → V → ℕ → Store → Bool × Store
  -- `EXISTS key`, of a string
  pub exists : K → Store → Bool
  pub delete : K → Store → Store
  pub zremrangebyscore : K → ℕ → ℕ → Store → Store
  pub zcard : K → Store → ℕ
  pub zadd : K → (member score : ℕ) → Store → Store
  pub expire : K → ℕ → Store → Store

-- Documented behaviour of these commands when no key expires in between.
pub record RedisLaws {K V : Type 0} (r : Redis K V) : Type 0 where
  pub sismember-sadd_self : (k : K) (m : Text) (s : r.Store) → r.sismember k m (r.sadd k m s) ≡ true
  pub sismember-sadd_ne :
      (k j : K) (m n : Text) (s : r.Store)
      → (k ≢ j) ⊎ (m ≢ n)
      → r.sismember j n (r.sadd k m s) ≡ r.sismember j n s
  pub sismember-srem_self :
      (k : K) (m : Text) (s : r.Store) → r.sismember k m (r.srem k m s) ≡ false
  pub sismember-srem_ne :
      (k j : K) (m n : Text) (s : r.Store)
      → (k ≢ j) ⊎ (m ≢ n)
      → r.sismember j n (r.srem k m s) ≡ r.sismember j n s
  pub sismember-delete_ne :
      (k j : K) (n : Text) (s : r.Store)
      → k ≢ j
      → r.sismember j n (r.delete k s) ≡ r.sismember j n s
  pub sismember-set_ex_ne :
      (k j : K) (n : Text) (v : V) (t : ℕ) (s : r.Store)
      → k ≢ j
      → r.sismember j n (r.set_ex k v t s) ≡ r.sismember j n s
  pub sismember-set_nx_ne :
      (k j : K) (n : Text) (v : V) (t : ℕ) (s : r.Store)
      → k ≢ j
      → r.sismember j n (r.set_nx_ex k v t s).1 ≡ r.sismember j n s
  -- a key that was just deleted can be set
  pub set_nx-delete :
      (k : K) (v : V) (t : ℕ) (s : r.Store) → (r.set_nx_ex k v t (r.delete k s)).0 ≡ true
  pub get-delete : (k : K) (s : r.Store) → r.get k (r.delete k s) ≡ none
  pub exists-set_ex : (k : K) (v : V) (t : ℕ) (s : r.Store) → r.exists k (r.set_ex k v t s) ≡ true
  -- after `SET NX` the key is there, whoever set it
  pub exists-set_nx :
      (k : K) (v : V) (t : ℕ) (s : r.Store) → r.exists k (r.set_nx_ex k v t s).1 ≡ true
  pub set_nx-exists :
      (k : K) (v : V) (t : ℕ) (s : r.Store) → r.exists k s ≡ true → (r.set_nx_ex k v t s).0 ≡ false
  pub set_nx-absent :
      (k : K) (v : V) (t : ℕ) (s : r.Store) → r.exists k s ≡ false → (r.set_nx_ex k v t s).0 ≡ true
  pub get-set_ex_self : (k : K) (v : V) (t : ℕ) (s : r.Store) → r.get k (r.set_ex k v t s) ≡ some v
  pub get-set_ex_ne :
      (k j : K) (v : V) (t : ℕ) (s : r.Store) → k ≢ j → r.get j (r.set_ex k v t s) ≡ r.get j s
