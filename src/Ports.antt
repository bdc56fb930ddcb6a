-- ===== src/Ports.antt =====
-- The services that the program keeps its state in: collections of MongoDB documents, values with an
-- expiry in Redis, and counters in Redis. They are no code of the repository, so each is an interface
-- with the documented behaviour that is relied on; the children show that it can be met.
pub mod Memory
use gen_xtaxi_ai.Common.{
  ℕ, ◌+◌, ◌≤◌, ◌<◌, String, str_eq, ◌≡◌, ◌≢◌, Bool, true, false, Option, none, some, List, [], ◌∷◌,
  ◌++◌, map, if◌then◌else◌, is_some,
}

-- A collection: `docs` are its documents with their ids, in the order of creation.
pub record Collection (D : Type 0) : Type 1 where
  pub State : Type 0
  pub docs : State → List (String × D)
  -- The id that the next document gets, and its creation.
  pub next_id : State → String
  pub create : D → State → State
  -- `updateOne({ _id }, …)`
  pub update : String → (D → D) → State → State
  pub docs-create : (d : D) (s : State) → docs (create d s) ≡ docs s ++ (next_id s, d) ∷ []
  pub docs-update :
      (id : String) (f : D → D) (s : State)
      → docs (update id f s) ≡ map (λ e. if str_eq e.0 id then (e.0, f e.1) else e) (docs s)

-- Values under keys with a time to live; times are in seconds.
pub record Redis (V : Type 0) : Type 1 where
  pub State : Type 0
  pub get : ℕ → String → State → Option V
  -- `SET key value EX ttl`
  pub set : ℕ → String → V → ℕ → State → State
  pub del : String → State → State
  pub get-set_self :
      (now later : ℕ) (k : String) (v : V) (ttl : ℕ) (s : State)
      → now ≤ later
      → later < now + ttl
      → get later k (set now k v ttl s) ≡ some v
  pub get-set_ne :
      (now later : ℕ) (j k : String) (v : V) (ttl : ℕ) (s : State)
      → j ≢ k
      → get later j (set now k v ttl s) ≡ get later j s
  pub get-del_self : (now : ℕ) (k : String) (s : State) → get now k (del k s) ≡ none
  pub get-del_ne : (now : ℕ) (j k : String) (s : State) → j ≢ k → get now j (del k s) ≡ get now j s

-- `SET key value EX ttl NX`: whether the key was free, and then it is set.
abbrev pub set_nx : {V : Type 0} (r : Redis V) → ℕ → String → V → ℕ → r.State → Bool × r.State
set_nx r now k v ttl s = if is_some (r.get now k s) then (false, s) else (true, r.set now k v ttl s)

-- Counters: `value` is 0 where there is none, and `ttl` is what the last `EXPIRE` set.
pub record Counters : Type 1 where
  pub State : Type 0
  pub value : String → State → ℕ
  pub ttl : String → State → Option ℕ
  pub incrby : String → ℕ → State → State
  pub expire : String → ℕ → State → State
  pub value-incrby :
      (j k : String) (n : ℕ) (s : State)
      → value j (incrby k n s) ≡ (if str_eq j k then value j s + n else value j s)
  pub value-expire : (j k : String) (n : ℕ) (s : State) → value j (expire k n s) ≡ value j s
  pub ttl-incrby : (j k : String) (n : ℕ) (s : State) → ttl j (incrby k n s) ≡ ttl j s
  pub ttl-expire :
      (j k : String) (n : ℕ) (s : State)
      → ttl j (expire k n s) ≡ (if str_eq j k then some n else ttl j s)
