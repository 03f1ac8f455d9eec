-- ===== src/Config/Lookup/Summaries.antt =====
-- Which devices an SNMP listing shows, and what its summaries show of them.
use ops_mcp.Config.Lookup.{labels_match, value_or_empty}
use ops_mcp.Model.Snmp.{
  SnmpDevice, SnmpDeviceSummary, SnmpAuthSummary, auth_summary, device_summary,
}
use ops_mcp.Prelude.{
  ◌≡◌, refl, ap, true, none, some, List, [], ◌∷◌, nat_eq, Str, str_eq, Dict, lookup, Option-cases,
  Option, str, str_beq_iff, is_empty, is_empty_iff, ◌==◌, All, all_iff, keep, map, Bool-cases, ◌↔◌,
  ◌⊎◌, inl, inr, sym, ◌∙◌,
}

-- A device has the asked labels: each asked value is the one it has under that key. A key that it
-- does not have counts as the empty value.
pub HasLabel : SnmpDevice → Str × Str → Type 0
HasLabel d (k, v) = (lookup k d.labels ≡ some v) ⊎ ((lookup k d.labels ≡ none) × (v ≡ []))

pub HasLabels : Dict Str → SnmpDevice → Type 0
HasLabels labels d = All (HasLabel d) labels

-- What a summary shows of its device besides the description of its inline credential.
pub record IsSummary (d : SnmpDevice) (s : SnmpDeviceSummary) : Type 0 where
  name : s.name ≡ d.name
  description : s.description ≡ d.description
  labels : s.labels ≡ d.labels
  address : s.address ≡ d.address
  credential : s.credential ≡ d.credential
  context : s.context ≡ d.context
  timeout : s.timeout ≡ d.timeout
  retries : s.retries ≡ d.retries
  max_repetitions : s.max_repetitions ≡ d.max_repetitions
  walk_max_oids : s.walk_max_oids ≡ d.walk_max_oids

-- The summaries of those devices that have the asked labels, in the order of the devices.
pub data Summaries (labels : Dict Str) : List SnmpDevice → List SnmpDeviceSummary → Type 0 where
  no_devices : Summaries labels [] []
  shown :
      {d : SnmpDevice} {s : SnmpDeviceSummary} {ds : List SnmpDevice} {ss : List SnmpDeviceSummary}
      → HasLabels labels d
      → IsSummary d s
      → Summaries labels ds ss
      → Summaries labels (d ∷ ds) (s ∷ ss)
  passed_over :
      {d : SnmpDevice} {ds : List SnmpDevice} {ss : List SnmpDeviceSummary}
      → ¬ HasLabels labels d
      → Summaries labels ds ss
      → Summaries labels (d ∷ ds) ss

HasLabel-iff :
    (d : SnmpDevice) (b : Str × Str)
    → (value_or_empty (lookup b.0 d.labels) == b.1 ≡ true) ↔ HasLabel d b
unfolding HasLabel
HasLabel-iff d (k, v) = elim (Option-cases (lookup k d.labels)) [
  | inl e ↦ (
    λ h. inr (e, sym ((str_beq_iff [] v).0 (rw e at h))),
    λ h. elim h [ inl f ↦ absurd (cc (e, f)) | inr f ↦ rw e ((str_beq_iff [] v).1 (sym f.1)) ],
  )
  | inr (w, e) ↦ (
    λ h. inl (e ∙ ap (λ s. some s) ((str_beq_iff w v).0 (rw e at h))),
    λ h. elim h [ inl f ↦ rw f ((str_beq_iff v v).1 refl) | inr f ↦ absurd (cc (e, f.0)) ],
  )
]

labels_match_iff :
    (labels : Dict Str) (d : SnmpDevice)
    → (labels_match d.labels labels ≡ true) ↔ HasLabels labels d
unfolding labels_match HasLabels
labels_match_iff labels d =
    all_iff (HasLabel d) (λ b. value_or_empty (lookup b.0 d.labels) == b.1) (HasLabel-iff d) labels

-- A summary with the fields of a device has them, whatever it says of the credentials.
same_fields :
    (d : SnmpDevice) (mode credential : Str) (auth : Option SnmpAuthSummary)
    → credential ≡ d.credential
    → IsSummary d (record {
      name = d.name;
      description = d.description;
      labels = d.labels;
      address = d.address;
      auth_mode = mode;
      credential = credential;
      auth = auth;
      context = d.context;
      timeout = d.timeout;
      retries = d.retries;
      max_repetitions = d.max_repetitions;
      walk_max_oids = d.walk_max_oids;
    })
same_fields d mode credential auth h = record {
  name = refl;
  description = refl;
  labels = refl;
  address = refl;
  credential = h;
  context = refl;
  timeout = refl;
  retries = refl;
  max_repetitions = refl;
  walk_max_oids = refl;
}

device_summary-IsSummary : (d : SnmpDevice) → IsSummary d (device_summary d)
unfolding device_summary
device_summary-IsSummary d = elim (Bool-cases (is_empty d.credential)) [
  | inl e ↦ rw e (elim (Option-cases d.auth) [
    | inl f ↦ simp f (same_fields d [] [] none (sym ((is_empty_iff d.credential).0 e)))
    | inr (a, f) ↦ simp f (
        same_fields d (str "inline") [] (some (auth_summary a))
          (sym ((is_empty_iff d.credential).0 e)))
  ])
  | inr e ↦ rw e (same_fields d (str "credential") d.credential none refl)
]

pub matching-Summaries :
    (labels : Dict Str) (ds : List SnmpDevice)
    → Summaries labels ds (map device_summary (keep (λ d. labels_match d.labels labels) ds))
unfolding keep
matching-Summaries labels [] = no_devices
matching-Summaries labels (d ∷ ds) = elim (Bool-cases (labels_match d.labels labels)) [
  | inl e ↦ rw e (
      shown ((labels_match_iff labels d).0 e) (device_summary-IsSummary d)
        (matching-Summaries labels ds))
  | inr e ↦ rw e (
      passed_over (λ h. absurd (cc (e, (labels_match_iff labels d).1 h)))
        (matching-Summaries labels ds))
]
