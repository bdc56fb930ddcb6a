-- ===== src/Ports/Memory.antt =====
-- Services in memory, which behave as the interfaces ask.
use gen_xtaxi_ai.Common.{
  ℕ, ◌+◌, ◌<◌, String, str_eq, eq_iff, ◌≡◌, ◌≢◌, refl, Option, none, some, List, [], ◌∷◌, ◌++◌, map,
  arith, ltb, if◌then◌else◌,
}
use gen_xtaxi_ai.Ports.{Collection, Redis, Counters}

-- Every document gets the id "id": the interface does not say that ids differ.
abbrev pub memory_collection : (D : Type 0) → Collection D
memory_collection D = record {
  State = List (String × D);
  docs = λ s. s;
  next_id = λ _. "id";
  create = λ d s. s ++ ("id", d) ∷ [];
  update = λ id f. map (λ e. if str_eq e.0 id then (e.0, f e.1) else e);
  docs-create = λ d s. refl;
  docs-update = λ id f s. refl;
}

-- A value, and the time from which it is gone.
abbrev pub Entries : Type 0 → Type 0
Entries V = String → Option (V × ℕ)

abbrev pub alive : {V : Type 0} → ℕ → Option (V × ℕ) → Option V
alive now none = none
alive now (some (v, until)) = if ltb now until then some v else none

abbrev pub put {ℓ} : {A : Type ℓ} → String → A → (String → A) → String → A
put k a s j = if str_eq j k then a else s j

pub put_self {ℓ} : {A : Type ℓ} (k : String) (a : A) (s : String → A) → put k a s k ≡ a
put_self k a s = rw ((eq_iff k k).1 refl)

pub put_ne {ℓ} :
    {A : Type ℓ} (k : String) (a : A) (s : String → A) (j : String) → j ≢ k → put k a s j ≡ s j
put_ne k a s j h = ground (arith, eq_iff j k)

pub alive_before :
    {V : Type 0} (v : V) (later until : ℕ) → later < until → alive later (some (v, until)) ≡ some v
alive_before v later until h = ground arith

abbrev pub memory_redis : (V : Type 0) → Redis V
memory_redis V = record {
  State = Entries V;
  get = λ now k s. alive now (s k);
  set = λ now k v ttl. put k (some (v, now + ttl));
  del = λ k. put k none;
  get-set_self = λ now later k v ttl s _ h.
      rw (put_self {A = Option (V × ℕ)} k (some (v, now + ttl)) s)
        (alive_before v later (now + ttl) h);
  get-set_ne =
      λ now later j k v ttl s h. rw (put_ne {A = Option (V × ℕ)} k (some (v, now + ttl)) s j h);
  get-del_self = λ now k s. rw (put_self {A = Option (V × ℕ)} k none s);
  get-del_ne = λ now j k s h. rw (put_ne {A = Option (V × ℕ)} k none s j h);
}

pub record Totals : Type 0 where
  pub values : String → ℕ
  pub ttls : String → Option ℕ

pub value-incrby :
    (j k : String) (n : ℕ) (f : String → ℕ)
    → put k (f k + n) f j ≡ (if str_eq j k then f j + n else f j)
value-incrby j k n f = ground (arith, eq_iff j k)

abbrev pub memory_counters : Counters
memory_counters = record {
  State = Totals;
  value = λ k s. s.values k;
  ttl = λ k s. s.ttls k;
  incrby = λ k n s. record s { values = put k (s.values k + n) s.values };
  expire = λ k n s. record s { ttls = put k (some n) s.ttls };
  value-incrby = λ j k n s. value-incrby j k n s.values;
  value-expire = λ j k n s. refl;
  ttl-incrby = λ j k n s. refl;
  ttl-expire = λ j k n s. refl;
}
