-- ===== src/Json/Stable.antt =====
-- `stableJsonStringify` and `sortJsonValue` of apps/api/src/services/jobRunner.ts.
use Prim.Native.Char.{code}
use Prim.Native.Nat.{◌/◌, ◌%◌}
use memo_repo.Prelude.{
  ℕ, String, ◌+◌, ◌-◌, ◌*◌, ◌≡◌, refl, Bool, true, false, ◌&&◌, Option, none, some, List, [], ◌∷◌,
  ltb, leb, ◌=?◌, if◌then◌else◌,
}
use memo_repo.Json.{
  Json, null, bool, num, str, arr, obj, Items, nil, cons, Fields, end, field, stringify,
}

-- The UTF-16 code units of a text, by which JavaScript compares.
unfoldable pub utf16 : String → List ℕ
utf16 String.[] = []
utf16 (String.◌∷◌ c s) =
    let n = code c in
    let rest = utf16 s in
    if ltb n 0x10000
    then n ∷ rest
    else (0xD800 + (n - 0x10000) / 1024) ∷ (0xDC00 + (n - 0x10000) % 1024) ∷ rest

unfoldable pub units_lt : List ℕ → List ℕ → Bool
units_lt [] [] = false
units_lt [] (_ ∷ _) = true
units_lt (_ ∷ _) [] = false
units_lt (a ∷ as_) (b ∷ bs) = if ltb a b then true else if ltb b a then false else units_lt as_ bs

-- `left < right` on texts
unfoldable pub js_lt : String → String → Bool
unfolding utf16 units_lt
js_lt s t = units_lt (utf16 s) (utf16 t)

-- The stable sort of the entries by their keys.
unfoldable pub insert_entry : String → Json → Fields → Fields
insert_entry k v end = field k v end
insert_entry k v (field j w fs) =
    if js_lt j k then field j w (insert_entry k v fs) else field k v (field j w fs)

unfoldable pub sort_entries : Fields → Fields
sort_entries end = end
sort_entries (field k v fs) = insert_entry k v (sort_entries fs)

-- A key that is an array index, such as "0" or "17": `Object.fromEntries` puts those first.
digits_value : ℕ → String → Option ℕ
digits_value n String.[] = some n
digits_value n (String.◌∷◌ c s) =
    let d = code c in
    let rest = digits_value (n * 10 + (d - b'0')) s in
    if leb b'0' d && leb d b'9' then rest else none

below_limit : Option ℕ → Option ℕ
below_limit none = none
below_limit (some n) = if ltb n 4294967295 then some n else none

unfoldable pub array_index : String → Option ℕ
unfolding digits_value below_limit
array_index String.[] = none
array_index (String.◌∷◌ c String.[]) = digits_value 0 (String.◌∷◌ c String.[])
array_index (String.◌∷◌ c s) =
    if code c =? b'0' then none else below_limit (digits_value 0 (String.◌∷◌ c s))

pub data IndexFields : Type 0 where
  stop : IndexFields
  entry : ℕ → String → Json → IndexFields → IndexFields

insert_index : ℕ → String → Json → IndexFields → IndexFields
insert_index n k v stop = entry n k v stop
insert_index n k v (entry m j w es) =
    if ltb m n then entry m j w (insert_index n k v es) else entry n k v (entry m j w es)

index_fields : Fields → IndexFields
unfolding insert_index
index_fields end = stop
index_fields (field k v fs) =
    let rest = index_fields fs in
    elim (array_index k) [ none ↦ rest | some n ↦ insert_index n k v rest ]

name_fields : Fields → Fields
name_fields end = end
name_fields (field k v fs) =
    let rest = name_fields fs in elim (array_index k) [ none ↦ field k v rest | some n ↦ rest ]

before : IndexFields → Fields → Fields
before stop fs = fs
before (entry n k v es) fs = field k v (before es fs)

-- `Object.fromEntries` and `Object.entries`
unfoldable pub from_entries : Fields → Fields
unfolding index_fields name_fields before array_index
from_entries fs = before (index_fields fs) (name_fields fs)

unfoldable mutual
  pub sort_json_value : Json → Json
  sort_json_value (arr xs) = arr (sort_items xs)
  sort_json_value (obj fs) = obj (from_entries (sort_entries (sort_values fs)))
  sort_json_value v = v

  pub sort_items : Items → Items
  sort_items nil = nil
  sort_items (cons x xs) = cons (sort_json_value x) (sort_items xs)

  pub sort_values : Fields → Fields
  sort_values end = end
  sort_values (field k v fs) = field k (sort_json_value v) (sort_values fs)

-- A payload is a value that JSON can hold, so the `TypeError` of the source does not arise.
unfoldable pub stable_json_stringify : Json → String
unfolding sort_json_value from_entries sort_entries insert_entry js_lt stringify
stable_json_stringify v = stringify (sort_json_value v)

sorted_payload :
    stable_json_stringify (
      obj (
        field "b" null (
          field "a" (arr (cons (bool true) nil)) (field "10" (str "x") (field "9" (num "1") end)))))
    ≡ "{\"9\":1,\"10\":\"x\",\"a\":[true],\"b\":null}"
unfolding stable_json_stringify
sorted_payload = refl
