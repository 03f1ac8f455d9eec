-- ===== src/Connector/Kafka/Health/Reported.antt =====
-- What partitionHealth reports of the topics that it looks at.
use ops_mcp.Connector.Kafka.Admin.{Admin, Partition, TopicDetail}
use ops_mcp.Connector.Kafka.Params.{Numbers, param_string}
use ops_mcp.Connector.Kafka.Topics.{is_under_replicated, or_conn_err}
use ops_mcp.Connector.Kafka.Health.{
  Health, Tally, add_partition, add_partitions, add_topic, add_topics, asked_topic, empty_tally,
  has_no_leader, has_offline, health_of, is_healthy, is_visited, issue_of, partition_health,
  reasons, Issue, named_if, error_reason,
}
use ops_mcp.Prelude.Value.{Value}
use ops_mcp.Prelude.{
  pos, Str, ◌≤ℤ◌, ◌≡◌, ◌↔◌, is_nil, true, List, All, Bool-cases, [], length, ◌∷◌, inl, arith, ◌≤◌,
  inr, refl, none, ◌++◌, Bool, Option, str, Result, Dict, false, some, ok, ap, values, ok_injective,
  >>=-eq-ok, err, sym, ◌∙◌, ◌⊎◌, Option-cases, ◌≢◌, is_empty, is_empty_iff, str_beq_iff,
}

-- A leader, no offline replica, and every replica in sync.
pub record IsSound (p : Partition) : Type 0 where
  pub leader : pos 0 ≤ℤ p.leader
  pub online : is_nil p.offline_replicas ≡ true
  pub in_sync : length p.replicas ≤ length p.isr

-- A topic that counts: one without an error, and the one asked for where a topic is.
pub record Visited (topic : Str) (d : TopicDetail) : Type 0 where
  pub readable : d.error ≡ none
  pub asked : (topic ≡ []) ⊎ (d.topic ≡ topic)

Visited-iff : (topic : Str) (d : TopicDetail) → (is_visited topic d ≡ true) ↔ Visited topic d
Visited-iff topic d = (
  (λ h. record {
    readable = elim (Option-cases d.error) [ inl e ↦ e | inr (m, e) ↦ absurd (ground (arith, e)) ];
    asked = elim (Bool-cases (is_empty topic)) [
      | inl e ↦ inl ((is_empty_iff topic).0 e)
      | inr e ↦ inr ((str_beq_iff d.topic topic).0 (ground arith))
    ];
  }),
  (λ v. rw v.readable (elim v.asked [
    | inl e ↦ rw ((is_empty_iff topic).1 e) refl
    | inr e ↦ let b = (str_beq_iff d.topic topic).1 e in ground arith
  ])),
)

-- The topic that the metadata is asked for: the given one, or none for all of them.
pub record IsAsked (topic : Str) (asked : Option Str) : Type 0 where
  pub every : topic ≡ [] → asked ≡ none
  pub one : topic ≢ [] → asked ≡ some topic

IsAsked-asked_topic : (topic : Str) → IsAsked topic (asked_topic topic)
IsAsked-asked_topic [] = record { every = λ h. refl; one = λ h. absurd (h refl) }
IsAsked-asked_topic (c ∷ s) = record { every = λ h. absurd (cc h); one = λ h. refl }

module _ (G : Tally → Type 0) (P : Partition → Type 0)
    (step : (topic : Str) (t : Tally) (p : Partition)
      → G (add_partition topic t p) ↔ (G t × P p)) where
  add_partitions_iff :
      (topic : Str) (t : Tally) (ps : List Partition)
      → G (add_partitions topic t ps) ↔ (G t × All P ps)
  unfolding add_partitions
  add_partitions_iff topic t [] = ((λ g. (g, tt)), (λ h. h.0))
  add_partitions_iff topic t (p ∷ ps) =
      let rest = add_partitions_iff topic (add_partition topic t p) ps in
      (
        (λ g.
            let (gp, all_ps) = rest.0 g in
            let (gt, pp) = (step topic t p).0 gp in (gt, (pp, all_ps))),
        (λ h. rest.1 ((step topic t p).1 (h.0, h.1.0), h.1.1)),
      )

  abbrev AllVisited : Str → TopicDetail → Type 0
  AllVisited topic d = Visited topic d → All P d.partitions

  add_topic_iff :
      (topic : Str) (t : Tally) (d : TopicDetail)
      → G (add_topic topic t d) ↔ (G t × AllVisited topic d)
  add_topic_iff topic t d = elim (Bool-cases (is_visited topic d)) [
    | inl v ↦ rw v (
        let parts = add_partitions_iff d.topic t d.partitions in
        (
          (λ g. ((parts.0 g).0, λ e. (parts.0 g).1)),
          (λ h. parts.1 (h.0, h.1 ((Visited-iff topic d).0 v))),
        ))
    | inr v ↦ rw v ((λ g. (g, λ e. absurd (cc (v, (Visited-iff topic d).1 e)))), (λ h. h.0))
  ]

  add_topics_iff :
      (topic : Str) (t : Tally) (ds : List TopicDetail)
      → G (add_topics topic t ds) ↔ (G t × All (AllVisited topic) ds)
  unfolding add_topics
  add_topics_iff topic t [] = ((λ g. (g, tt)), (λ h. h.0))
  add_topics_iff topic t (d ∷ ds) =
      let rest = add_topics_iff topic (add_topic topic t d) ds in
      (
        (λ g.
            let (gd, all_ds) = rest.0 g in
            let (gt, ad) = (add_topic_iff topic t d).0 gd in (gt, (ad, all_ds))),
        (λ h. rest.1 ((add_topic_iff topic t d).1 (h.0, h.1.0), h.1.1)),
      )

is_healthy-add_partition :
    (topic : Str) (t : Tally) (p : Partition)
    → (is_healthy (add_partition topic t p) ≡ true) ↔ ((is_healthy t ≡ true) × IsSound p)
unfolding is_healthy add_partition
is_healthy-add_partition topic t p = (
  (λ h. (
    ground arith,
    record { leader = ground arith; online = ground arith; in_sync = ground arith },
  )),
  (λ h.
      let s : IsSound p = h.1 in
      let a = s.leader in let b = s.online in let c = s.in_sync in ground arith),
)

append-is_nil : (xs ys : List Issue) → (xs ++ ys ≡ []) ↔ ((xs ≡ []) × (ys ≡ []))
append-is_nil [] ys = ((λ h. (refl, h)), (λ h. h.1))
append-is_nil (x ∷ xs) ys = ((λ h. absurd (cc h)), (λ h. absurd (cc (h.0))))

issue_of-nil :
    (topic : Str) (p : Partition) (rs : List Str) → (issue_of topic p rs ≡ []) ↔ (rs ≡ [])
issue_of-nil topic p [] = ((λ h. refl), (λ h. refl))
issue_of-nil topic p (r ∷ rs) = ((λ h. absurd (cc h)), (λ h. absurd (cc h)))

named_if-nil :
    (b : Bool) (s : Str) (rest : List Str) → named_if b s ++ rest ≡ [] → (b ≡ false) × (rest ≡ [])
named_if-nil true s rest h = absurd (cc h)
named_if-nil false s rest h = (refl, h)

error_reason-nil : (e : Option Str) → error_reason e ≡ [] → e ≡ none
error_reason-nil none h = refl
error_reason-nil (some e) h = absurd (cc h)

reasons_iff : (p : Partition) → (reasons p ≡ []) ↔ (IsSound p × (p.error ≡ none))
unfolding reasons
reasons_iff p = (
  (λ h.
      let failed = error_reason p.error in
      let behind = named_if (is_under_replicated p) (str "under_replicated") ++ failed in
      let gone = named_if (has_offline p) (str "offline_replicas") ++ behind in
      let (leader, h1) = named_if-nil (has_no_leader p) (str "no_leader") gone h in
      let (online, h2) = named_if-nil (has_offline p) (str "offline_replicas") behind h1 in
      let (in_sync, h3) = named_if-nil (is_under_replicated p) (str "under_replicated") failed h2 in
      (
        record { leader = ground arith; online = ground arith; in_sync = ground arith },
        error_reason-nil p.error h3,
      )),
  (λ h.
      let s : IsSound p = h.0 in
      let l : has_no_leader p ≡ false = let a = s.leader in ground arith in
      let o : has_offline p ≡ false = let a = s.online in ground arith in
      let u : is_under_replicated p ≡ false = let a = s.in_sync in ground arith in
      rw l (rw o (rw u (rw (h.1) refl)))),
)

healthy_start : is_healthy empty_tally ≡ true
unfolding is_healthy
healthy_start = refl

or_conn_err-eq-ok {ℓ} :
    {A : Type ℓ} {a : A} (action : Str) (out : Result Str A)
    → or_conn_err action out ≡ ok a
    → out ≡ ok a
or_conn_err-eq-ok action (ok a) h = ap (λ x. ok x) (ok_injective h)
or_conn_err-eq-ok action (err e) h = absurd (cc h)

issues-add_partition :
    (topic : Str) (t : Tally) (p : Partition)
    → ((add_partition topic t p).issues ≡ []) ↔ ((t.issues ≡ []) × (IsSound p × (p.error ≡ none)))
unfolding add_partition
issues-add_partition topic t p =
    let appended = append-is_nil t.issues (issue_of topic p (reasons p)) in
    let made = issue_of-nil topic p (reasons p) in
    (
      (λ h. let (a, b) = appended.0 h in (a, (reasons_iff p).0 (made.0 b))),
      (λ h. appended.1 (h.0, made.1 ((reasons_iff p).1 h.1))),
    )

module _ (numbers : Numbers) (adm : Admin) (params : Dict Value) where
  abbrev topic : Str
  topic = param_string numbers params (str "topic")

  -- The report on the topics that the cluster describes without an error, or on the one of them that
  -- is asked for: healthy exactly when each of their partitions has a leader, no offline replica and
  -- all replicas in sync, and without an issue exactly when, besides, no partition has an error. A
  -- topic with an error counts neither way.
  pub partition_health_lem :
      (r : Health)
      → partition_health numbers adm params ≡ ok r
      → (asked : Option Str) × (meta : Dict TopicDetail) × IsAsked topic asked
        × (adm.metadata asked ≡ ok meta)
        × ((r.healthy ≡ true) ↔ All (λ d. Visited topic d → All IsSound d.partitions) (values meta))
        × ((r.issues ≡ [])
            ↔ All
                (λ d. Visited topic d → All (λ p. IsSound p × (p.error ≡ none)) d.partitions)
                (values meta))
  unfolding partition_health health_of
  partition_health_lem r h =
      let (meta, e, made) =
        >>=-eq-ok (or_conn_err (str "partition_health") (adm.metadata (asked_topic topic))) _ h in
      let same = sym (ok_injective made) in
      let sound =
        add_topics_iff (λ t. is_healthy t ≡ true) IsSound is_healthy-add_partition topic empty_tally
          (values meta) in
      let clean =
        add_topics_iff (λ t. t.issues ≡ []) (λ p. IsSound p × (p.error ≡ none)) issues-add_partition
          topic empty_tally (values meta) in
      (
        asked_topic topic,
        meta,
        IsAsked-asked_topic topic,
        or_conn_err-eq-ok (str "partition_health") _ e,
        (
          (λ g. (sound.0 (ap (λ (x : Health). x.healthy) (sym same) ∙ g)).1),
          (λ all. ap (λ (x : Health). x.healthy) same ∙ sound.1 (healthy_start, all)),
        ),
        (
          (λ g. (clean.0 (ap (λ (x : Health). x.issues) (sym same) ∙ g)).1),
          (λ all. ap (λ (x : Health). x.issues) same ∙ clean.1 (refl, all)),
        ),
      )
