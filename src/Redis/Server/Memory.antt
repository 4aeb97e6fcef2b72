-- ===== src/Redis/Server/Memory.antt =====
-- A server that keeps its laws: a function from keys to values with their seconds left.
use unitra_service_api.Common.{
  ℕ, ◌-◌, ◌<◌, ◌≤◌, ◌≡◌, refl, Option, none, some, List, [], ◌++◌, if◌then◌else◌, leb, arith,
  Bool-cases, inl, inr,
}
use unitra_service_api.Common.Int.{ℤ, pos, negsuc}
use unitra_service_api.Common.Text.{Text, text_eq, text_eq_refl, text_eq_iff}
use unitra_service_api.Redis.Server.{RedisServer, plus}

-- A value, the fields of a hash, and the seconds left, none without an expiry.
pub record Entry : Type 0 where
  pub value : Option ℕ
  pub fields : List (Text × Text)
  pub left : Option ℕ

abbrev pub MemoryStore : Type 0
MemoryStore = Text → Option Entry

abbrev pub value_of : Option Entry → Option ℕ
value_of none = none
value_of (some e) = e.value

abbrev pub fields_of : Option Entry → List (Text × Text)
fields_of none = []
fields_of (some e) = e.fields

abbrev pub left_of : Option Entry → Option ℕ
left_of none = none
left_of (some e) = e.left

abbrev pub ttl_of : Option Entry → ℤ
ttl_of none = negsuc 1
ttl_of (some e) = elim e.left [ none ↦ negsuc 0 | some t ↦ pos t ]

abbrev pub write : Text → Option Entry → MemoryStore → MemoryStore
write k e s j = if text_eq k j then e else s j

abbrev pub expiring : ℕ → Option Entry → Option Entry
expiring t none = none
expiring t (some e) = some (record e { left = some t })

abbrev pub aged_left : ℕ → Entry → Option ℕ → Option Entry
aged_left n e none = some e
aged_left n e (some t) = if leb t n then none else some (record e { left = some (t - n) })

abbrev pub aged : ℕ → Option Entry → Option Entry
aged n none = none
aged n (some e) = aged_left n e e.left

abbrev pub found : Option Entry → ℕ
found none = 0
found (some e) = 1

pub expiring_value : (t : ℕ) (e : Option Entry) → value_of (expiring t e) ≡ value_of e
expiring_value t none = refl
expiring_value t (some e) = refl

abbrev pub incremented : ℕ → Option Entry → Entry
incremented n e = record {
  value = some (plus n (value_of e));
  fields = fields_of e;
  left = left_of e;
}

pub incremented_ttl :
    (n m : ℕ) (e : Option Entry) → value_of e ≡ some m → ttl_of (some (incremented n e)) ≡ ttl_of e
incremented_ttl n m none h = cc
incremented_ttl n m (some e) h = refl

pub incrby_ttl :
    (k : Text) (n m : ℕ) (s : MemoryStore)
    → value_of (s k) ≡ some m
    → ttl_of (write k (some (incremented n (s k))) s k) ≡ ttl_of (s k)
incrby_ttl k n m s h = rw (text_eq_refl k) (incremented_ttl n m (s k) h)

pub found_value : (n : ℕ) (e : Option Entry) → value_of e ≡ some n → found e ≡ 1
found_value n none h = cc
found_value n (some e) h = refl

aged_left_before :
    (n t : ℕ) (e : Entry) (l : Option ℕ)
    → ttl_of (some (record e { left = l })) ≡ pos t
    → n < t
    → value_of (aged_left n e l) ≡ e.value
aged_left_before n t e none h lt = cc
aged_left_before n t e (some u) h lt = ground arith

pub aged_before :
    (n t : ℕ) (e : Option Entry) → ttl_of e ≡ pos t → n < t → value_of (aged n e) ≡ value_of e
aged_before n t none h lt = cc
aged_before n t (some e) h lt = aged_left_before n t e e.left h lt

aged_left_expiry :
    (n t : ℕ) (e : Entry) (l : Option ℕ)
    → ttl_of (some (record e { left = l })) ≡ pos t
    → t ≤ n
    → value_of (aged_left n e l) ≡ none
aged_left_expiry n t e none h le = cc
aged_left_expiry n t e (some u) h le = ground arith

pub aged_expiry :
    (n t : ℕ) (e : Option Entry) → ttl_of e ≡ pos t → t ≤ n → value_of (aged n e) ≡ none
aged_expiry n t none h le = cc
aged_expiry n t (some e) h le = aged_left_expiry n t e e.left h le

aged_left_ttl :
    (n t : ℕ) (e : Entry) (l : Option ℕ)
    → ttl_of (some (record e { left = l })) ≡ pos t
    → n < t
    → ttl_of (aged_left n e l) ≡ pos (t - n)
aged_left_ttl n t e none h lt = cc
aged_left_ttl n t e (some u) h lt = ground arith

pub aged_ttl :
    (n t : ℕ) (e : Option Entry) → ttl_of e ≡ pos t → n < t → ttl_of (aged n e) ≡ pos (t - n)
aged_ttl n t none h lt = cc
aged_ttl n t (some e) h lt = aged_left_ttl n t e e.left h lt

module _ (k j : Text) where
  pub write_get :
      (e : Entry) (s : MemoryStore)
      → value_of (write k (some e) s j) ≡ (if text_eq k j then e.value else value_of (s j))
  write_get e s = elim (Bool-cases (text_eq k j)) [ inl h ↦ rw h refl | inr h ↦ rw h refl ]

  pub write-none :
      (s : MemoryStore)
      → value_of (write k none s j) ≡ (if text_eq k j then none else value_of (s j))
  write-none s = elim (Bool-cases (text_eq k j)) [ inl h ↦ rw h refl | inr h ↦ rw h refl ]

  pub write_ttl :
      (t v : ℕ) (s : MemoryStore)
      → ttl_of (write k (some (record { value = some v; fields = []; left = some t })) s j)
        ≡ (if text_eq k j then pos t else ttl_of (s j))
  write_ttl t v s = elim (Bool-cases (text_eq k j)) [ inl h ↦ rw h refl | inr h ↦ rw h refl ]

  pub expire_value :
      (t : ℕ) (s : MemoryStore) → value_of (write k (expiring t (s k)) s j) ≡ value_of (s j)
  expire_value t s = elim (Bool-cases (text_eq k j)) [
    | inl h ↦ rw h (rw (← (text_eq_iff k j).0 h) (expiring_value t (s k)))
    | inr h ↦ rw h refl
  ]

abbrev pub memory : RedisServer
memory = record {
  Store = MemoryStore;
  get = λ k s. value_of (s k);
  setex = λ k t v s. write k (some (record { value = some v; fields = []; left = some t })) s;
  incrby = λ k n s. write k (some (incremented n (s k))) s;
  expire = λ k t s. write k (expiring t (s k)) s;
  ttl = λ k s. ttl_of (s k);
  exists = λ k s. found (s k);
  delete = λ k s. write k none s;
  hset = λ k fs s.
      write k (some (record { value = none; fields = fs ++ fields_of (s k); left = left_of (s k) }))
        s;
  hgetall = λ k s. fields_of (s k);
  after = λ n s k. aged n (s k);
  get-setex =
      λ k j t v s _. write_get k j (record { value = some v; fields = []; left = some t }) s;
  get-incrby = λ k j n s. write_get k j (incremented n (s k)) s;
  get-expire = λ k j t s _. expire_value k j t s;
  ttl-setex = λ k j t v s _. write_ttl k j t v s;
  ttl-incrby = λ k n m s h. incrby_ttl k n m s h;
  exists-get = λ k n s h. found_value n (s k) h;
  get-delete = λ k j s. write-none k j s;
  ttl-delete = λ k j s h. rw h refl;
  get-after_before = λ k t n s h lt. aged_before n t (s k) h lt;
  ttl-after = λ k t n s h lt. aged_ttl n t (s k) h lt;
  get-after_expiry = λ k t n s h lt. aged_expiry n t (s k) h (omega arith);
}
