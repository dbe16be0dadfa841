-- ===== src/Evidence.antt =====
-- apps/api/src/services/cbmEvidence.ts: what is left out of an answer of the code graph, and how its
-- edges are told apart.
pub mod Compact
mod Tests
use memo_repo.Prelude.{
  String, Bool, true, false, not, Option, none, some, List, [], ◌∷◌, if◌then◌else◌, filter, set_has,
  ◌==◌,
}
use memo_repo.Json.{Json, str, arr, obj, Items, nil, cons, Fields, end, field}

-- `COMPACT_OMITTED_KEYS`
abbrev pub compact_omitted_keys : List String
compact_omitted_keys =
    "fp" ∷ "sp" ∷ "bt" ∷ "fingerprint" ∷ "internal_metrics" ∷ "query_plan" ∷ "query_profile" ∷ []

-- `compactCbmValue` with the detail "compact".
unfoldable mutual
  pub compact : Json → Json
  compact (arr xs) = arr (compact_items xs)
  compact (obj fs) = obj (compact_fields fs)
  compact v = v

  pub compact_items : Items → Items
  compact_items nil = nil
  compact_items (cons x xs) = cons (compact x) (compact_items xs)

  pub compact_fields : Fields → Fields
  compact_fields end = end
  compact_fields (field k v fs) =
      let kept = field k (compact v) (compact_fields fs) in
      let rest = compact_fields fs in if set_has k compact_omitted_keys then rest else kept

pub data Detail : Type 0 where
  compact_detail full_detail : Detail

unfoldable pub compact_cbm_value : Json → Detail → Json
unfolding compact
compact_cbm_value v full_detail = v
compact_cbm_value v compact_detail = compact v

get_field : String → Fields → Option Json
get_field k end = none
get_field k (field j v fs) = if j == k then some v else get_field k fs

abbrev is_verified_text : Option Json → Bool
is_verified_text (some (str s)) = s == "verified"
is_verified_text _ = false

-- Whether the value is a record whose field `confidence` is "verified".
unfoldable pub is_verified : Json → Bool
unfolding get_field
is_verified (obj fs) = is_verified_text (get_field "confidence" fs)
is_verified _ = false

-- `partitionTraceEdges`: the verified edges and the inferred ones.
unfoldable pub partition_trace_edges : List Json → List Json × List Json
unfolding is_verified
partition_trace_edges vs = (filter is_verified vs, filter (λ v. not (is_verified v)) vs)
