-- ===== src/Server/Lru.antt =====
-- The cache of the crate `lru`, as an interface: what the daemons use of it. Which entry a put
-- evicts is left open.
use jellyfin_recents.Prelude.{◌≡◌, ◌≢◌, Option, none, some}

pub record Lru (K V : Type 0) : Type 1 where
  pub Store : Type 0
  pub empty : Store
  pub peek : K → Store → Option V
  -- `get` answers as `peek` does, and marks the entry as used.
  pub touch : K → Store → Store
  pub put : K → V → Store → Store
  pub peek-empty : (k : K) → peek k empty ≡ none
  -- The capacity is positive, so an entry is there after it is put.
  pub peek-put : (k : K) (v : V) (s : Store) → peek k (put k v s) ≡ some v
  pub peek-touch : (j k : K) (s : Store) → peek j (touch k s) ≡ peek j s
  -- A put makes no other entry appear.
  pub peek-put_other :
      (j k : K) (v w : V) (s : Store) → j ≢ k → peek j (put k v s) ≡ some w → peek j s ≡ some w
