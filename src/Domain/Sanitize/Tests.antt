-- ===== src/Domain/Sanitize/Tests.antt =====
-- A message with a managed path in it.
use memo_repo.Prelude.{true, some, [], ◌∷◌, ◌++◌, ◌≡◌, refl}
use memo_repo.Text.{is_some}
use memo_repo.Domain.Sanitize.{
  Platform, managed_path, sanitize_public_message, replace_each, replace_case_insensitive,
  replace_loop, index_of, is_prefix, variants, distinct_units, replace_unit, drop,
}
use memo_repo.Domain.Sanitize.Ends.{sanitize_public_message-ends}

abbrev plain : Platform
plain = record { lower = λ s. s; resolve = λ s. s; escaped = λ s. s }

-- `at /m.`, with the root `/m`
test_message :
    sanitize_public_message plain ((47 ∷ 109 ∷ []) ∷ []) (97 ∷ 116 ∷ 32 ∷ 47 ∷ 109 ∷ 46 ∷ [])
    ≡ some (97 ∷ 116 ∷ 32 ∷ (managed_path ++ 46 ∷ []))
unfolding sanitize_public_message replace_each replace_case_insensitive replace_loop index_of
    is_prefix variants distinct_units replace_unit drop
test_message = refl

-- A root that is a part of what it is replaced by.
sanitize_public_message-ends_example :
    is_some (sanitize_public_message plain ((65 ∷ []) ∷ []) (65 ∷ 65 ∷ [])) ≡ true
sanitize_public_message-ends_example =
    sanitize_public_message-ends plain (λ s h. h) ((65 ∷ []) ∷ []) (65 ∷ 65 ∷ [])
