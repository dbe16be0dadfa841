-- ===== src/Evidence/Compact.antt =====
-- What a compact answer (cbmEvidence.ts) keeps.
use memo_repo.Prelude.{
  and-eq-true, inr, inl, ◌≡◌, refl, ap, Bool, true, false, not, ◌&&◌, set_has, arith, Bool-cases,
}
use memo_repo.Json.{Json, null, bool, num, str, arr, obj, Items, nil, cons, Fields, end, field}
use memo_repo.Evidence.{
  compact, compact_items, compact_fields, compact_omitted_keys, compact_cbm_value, Detail,
  compact_detail, full_detail,
}

-- Whether no field anywhere in the value has an omitted key.
unfoldable mutual
  pub is_clean : Json → Bool
  is_clean (arr xs) = are_clean xs
  is_clean (obj fs) = has_clean_fields fs
  is_clean v = true

  pub are_clean : Items → Bool
  are_clean nil = true
  are_clean (cons x xs) = is_clean x && are_clean xs

  pub has_clean_fields : Fields → Bool
  has_clean_fields end = true
  has_clean_fields (field k v fs) =
      not (set_has k compact_omitted_keys) && (is_clean v && has_clean_fields fs)

mutual
  unfolding is_clean compact

  compact-clean : (v : Json) → is_clean (compact v) ≡ true
  compact-clean null = refl
  compact-clean (bool b) = refl
  compact-clean (num n) = refl
  compact-clean (str s) = refl
  compact-clean (arr xs) = compact_items-clean xs
  compact-clean (obj fs) = compact_fields-clean fs

  compact_items-clean : (xs : Items) → are_clean (compact_items xs) ≡ true
  compact_items-clean nil = refl
  compact_items-clean (cons x xs) = ground (arith, compact-clean x, compact_items-clean xs)

  compact_fields-clean : (fs : Fields) → has_clean_fields (compact_fields fs) ≡ true
  compact_fields-clean end = refl
  compact_fields-clean (field k v fs) = elim (Bool-cases (set_has k compact_omitted_keys)) [
    | inl e ↦ rw e (compact_fields-clean fs)
    | inr e ↦ rw (e, e) (ground (arith, compact-clean v, compact_fields-clean fs))
  ]

not-eq-true : (a : Bool) → not a ≡ true → a ≡ false
not-eq-true true h = cc
not-eq-true false h = refl

mutual
  unfolding is_clean compact

  compact-fixed : (v : Json) → is_clean v ≡ true → compact v ≡ v
  compact-fixed null h = refl
  compact-fixed (bool b) h = refl
  compact-fixed (num n) h = refl
  compact-fixed (str s) h = refl
  compact-fixed (arr xs) h = ap arr (compact_items-fixed xs h)
  compact-fixed (obj fs) h = ap obj (compact_fields-fixed fs h)

  compact_items-fixed : (xs : Items) → are_clean xs ≡ true → compact_items xs ≡ xs
  compact_items-fixed nil h = refl
  compact_items-fixed (cons x xs) h =
      let (p, q) = and-eq-true (is_clean x) (are_clean xs) h in
      let a = compact-fixed x p in let b = compact_items-fixed xs q in cc (a, b)

  compact_fields-fixed : (fs : Fields) → has_clean_fields fs ≡ true → compact_fields fs ≡ fs
  compact_fields-fixed end h = refl
  compact_fields-fixed (field k v fs) h =
      let (n, r) =
        and-eq-true (not (set_has k compact_omitted_keys)) (is_clean v && has_clean_fields fs) h in
      let (p, q) = and-eq-true (is_clean v) (has_clean_fields fs) r in
      let a = compact-fixed v p in
      let b = compact_fields-fixed fs q in
      rw (not-eq-true (set_has k compact_omitted_keys) n) (cc (a, b))

-- A compact answer has an omitted key nowhere, however deep its values are nested.
pub compact_cbm_value-clean : (v : Json) → is_clean (compact_cbm_value v compact_detail) ≡ true
unfolding compact_cbm_value
compact_cbm_value-clean v = compact-clean v

-- A value that has an omitted key nowhere is answered as it is, at either detail.
pub compact_cbm_value-fixed :
    (v : Json) (d : Detail) → is_clean v ≡ true → compact_cbm_value v d ≡ v
unfolding compact_cbm_value
compact_cbm_value-fixed v compact_detail h = compact-fixed v h
compact_cbm_value-fixed v full_detail h = refl
