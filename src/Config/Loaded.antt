-- ===== src/Config/Loaded.antt =====
-- What loadKafka accepts, and what it loads.
use ops_mcp.Config.Errors.{
  ConfigError, Resource, FileRead, decoded, missing_name, duplicate_name, missing_brokers,
}
use ops_mcp.Config.Load.{add_kafka, load_kafka, with_kafka_limit}
use ops_mcp.Config.Named.{refuse_iff, not_empty_iff, for_each_iff}
use ops_mcp.Model.Kafka.{KafkaInstance}
use ops_mcp.Prelude.{
  ◌≤ℤ◌, ◌<ℤ◌, Bool-cases, is_nonpos, pos, arith, inl, inr, ◌≡◌, refl, sym, ap, ◌≢◌, ◌↔◌, Bool,
  false, List, [], ◌∷◌, map, nat_eq, is_nil, All, Distinct, Str, str_eq, is_empty, Dict, has,
  insert, Result, ok, ok_injective, refuse, ◌>>◌,
}

-- A body that refuses an entry of no name, then a name that is taken.
pub named_iff {κ ι} :
    {M : Type κ} {Q : Type ι} (what : Resource) (key : Str) (taken : Bool)
    (r : Result ConfigError M) (m' : M)
    → ((r ≡ ok m') ↔ Q)
    → ((refuse (is_empty key) (missing_name what) >> (refuse taken (duplicate_name what key) >> r))
        ≡ ok m')
      ↔ ((key ≢ []) × (taken ≡ false) × Q)
named_iff what key taken r m' q = (
  λ h.
      let (named, h1) = (refuse_iff _ _ _ m').0 h in
      let (new, h2) = (refuse_iff _ _ r m').0 h1 in ((not_empty_iff key).0 named, new, q.0 h2),
  λ h. (refuse_iff _ _ _ m').1 ((not_empty_iff key).1 h.0, (refuse_iff _ _ r m').1 (h.1, q.1 h.2)),
)

pub bind_iff {κ} :
    {M : Type κ} (m m' : M) → (◌≡◌ {A = Result ConfigError M} (ok m) (ok m')) ↔ (m' ≡ m)
bind_iff m m' = (λ h. sym (ok_injective h), λ h. ap (λ d. ok d) (sym h))

not_nil_iff {ℓ} : {A : Type ℓ} (xs : List A) → (is_nil xs ≡ false) ↔ (xs ≢ [])
not_nil_iff [] = (λ h. absurd (cc h), λ h. absurd (h refl))
not_nil_iff (x ∷ xs) = (λ _. λ h. absurd (cc h), λ _. refl)

-- A Kafka entry needs brokers besides its name.
abbrev pub HasBrokers : KafkaInstance → Type 0
HasBrokers k = (k.name ≢ []) × (k.connection.brokers ≢ [])

add_kafka_iff :
    (k : KafkaInstance) (m m' : Dict KafkaInstance)
    → (add_kafka k m ≡ ok m')
      ↔ (HasBrokers k × (has k.name m ≡ false) × (m' ≡ insert k.name (with_kafka_limit k) m))
unfolding add_kafka
add_kafka_iff k m m' =
    let step =
      named_iff Resource.kafka k.name (has k.name m) _ m'
        (refuse_iff (is_nil k.connection.brokers) (missing_brokers k.name) _ m') in
    let bind = bind_iff (insert k.name (with_kafka_limit k) m) m' in
    let brokers = not_nil_iff k.connection.brokers in
    (
      λ h.
          let (named, new, (some_broker, e)) = step.0 h in
          ((named, brokers.0 some_broker), new, bind.0 e),
      λ h.
          let ((named, some_broker), new, e) = h in
          step.1 (named, new, (brokers.1 some_broker, bind.1 e)),
    )

-- An entry of the file as it is kept: under its name, unchanged but for the limit, which is 1000
-- where that of the file is not positive.
pub record IsKept (k : KafkaInstance) (b : Str × KafkaInstance) : Type 0 where
  pub under : b.0 ≡ k.name
  pub limited : pos 0 <ℤ k.limit → b.1 ≡ k
  pub unlimited : k.limit ≤ℤ pos 0 → b.1 ≡ record k { limit = pos 1000 }

-- The entries of a file and the bindings of a map, one for one.
abbrev pub EachKept : List KafkaInstance → Dict KafkaInstance → Type 0
EachKept [] [] = Unit
EachKept (k ∷ ks) (b ∷ m) = IsKept k b × EachKept ks m
EachKept [] (b ∷ m) = ⊥
EachKept (k ∷ ks) [] = ⊥

IsKept-iff :
    (k : KafkaInstance) (b : Str × KafkaInstance) → (b ≡ (k.name, with_kafka_limit k)) ↔ IsKept k b
unfolding with_kafka_limit
IsKept-iff k (name, kept) = elim (Bool-cases (is_nonpos k.limit)) [
  | inl e ↦ rw e (
    (λ h. record {
      under = ap (λ p. p.0) h;
      limited = λ l. ground arith;
      unlimited = λ l. ap (λ p. p.1) h;
    }),
    (λ v. λ i. (v.under i, v.unlimited (ground arith) i)),
  )
  | inr e ↦ rw e (
    (λ h. record {
      under = ap (λ p. p.0) h;
      limited = λ l. ap (λ p. p.1) h;
      unlimited = λ l. ground arith;
    }),
    (λ v. λ i. (v.under i, v.limited (ground arith) i)),
  )
]

EachKept-iff :
    (ks : List KafkaInstance) (m : Dict KafkaInstance)
    → (m ≡ map (λ k. (k.name, with_kafka_limit k)) ks) ↔ EachKept ks m
EachKept-iff [] [] = (λ h. tt, λ h. refl)
EachKept-iff [] (b ∷ m) = (λ h. absurd (cc h), λ h. absurd h)
EachKept-iff (k ∷ ks) [] = (λ h. absurd (cc h), λ h. absurd h)
EachKept-iff (k ∷ ks) (b ∷ m) =
    let one = IsKept-iff k b in
    let rest = EachKept-iff ks m in
    ((λ h. (one.0 (cc h), rest.0 (cc h))), (λ h. λ i. one.1 h.0 i ∷ rest.1 h.1 i))

-- kafka.yaml is loaded exactly when every instance has a name and brokers and no two the same
-- name; the instances are then those of the file, in its order, under their names, unchanged but for
-- a limit that is not positive, which becomes 1000.
pub load_kafka_iff :
    (read : Str → FileRead (List KafkaInstance)) (path : Str) (ks : List KafkaInstance)
    → read path ≡ decoded ks
    → (m : Dict KafkaInstance)
    → (load_kafka read path ≡ ok m)
      ↔ (All HasBrokers ks × Distinct (map (λ k. k.name) ks) × EachKept ks m)
unfolding load_kafka
load_kafka_iff read path ks e m =
    let loaded =
      for_each_iff (λ k. k.name) HasBrokers with_kafka_limit add_kafka add_kafka_iff ks m in
    let kept = EachKept-iff ks m in
    rw e (
      (λ h. let (good, apart, same) = loaded.0 h in (good, apart, kept.0 same)),
      (λ h. loaded.1 (h.0, h.1, kept.1 h.2)),
    )
