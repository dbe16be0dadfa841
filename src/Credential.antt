-- ===== src/Credential.antt =====
-- `CredentialCipher` of apps/api/src/services/githubCredentialStore.ts, which keeps the token of the stored
-- credential encrypted. Node's AES-256-GCM under the key of the file, its base64url and its UTF-8 are the
-- record `Crypto`.
pub mod Reopens
mod Tests
use Prim.Native.Char.{Char, code}
use Prim.Native.String
use memo_repo.Prelude.{
  ℕ, String, Bool, true, false, not, ◌&&◌, ◌||◌, Option, none, some, List, [], ◌∷◌, ◌=?◌, ◌==◌, ◌≡◌,
  if◌then◌else◌,
}
use memo_repo.Domain.Slug.PathName.{every_char}

pub record Crypto : Type 1 where
  pub Bytes : Type 0
  pub size : Bytes → ℕ
  pub utf8 : String → Bytes
  pub from_utf8 : Bytes → String
  pub base64url : Bytes → String
  pub from_base64url : String → Bytes
  -- The ciphertext and the tag of a text under a nonce and additional data.
  pub seal : Bytes → Bytes → Bytes → Bytes × Bytes
  -- The text behind a ciphertext, or none where the tag does not fit and the decipher throws.
  pub unseal : Bytes → Bytes → Bytes → Bytes → Option Bytes

abbrev pub iv_bytes : ℕ
iv_bytes = 12

abbrev pub credential_aad : String
credential_aad = "memorepo:github-oauth-credential:v1"

abbrev pub dot : Char → Bool
dot c = code c =? b'.'

abbrev pub to_first : Char → List String → List String
to_first c [] = String.◌∷◌ c String.[] ∷ []
to_first c (s ∷ ss) = String.◌∷◌ c s ∷ ss

-- `envelope.split(".")`
unfoldable pub split_dots : String → List String
split_dots String.[] = "" ∷ []
split_dots (String.◌∷◌ c s) =
    let rest = split_dots s in if dot c then "" ∷ rest else to_first c rest

-- `[…].join(".")` of the four parts
abbrev pub join_dots : String → String → String → String → String
join_dots a b c d =
    String.◌++◌ a
      (String.◌++◌ "." (String.◌++◌ b (String.◌++◌ "." (String.◌++◌ c (String.◌++◌ "." d)))))

-- The call throws on an empty text, which is `none`.
unfoldable pub encrypt : (c : Crypto) → c.Bytes → String → Option String
encrypt c iv value =
    let (ciphertext, tag) = c.seal iv (c.utf8 credential_aad) (c.utf8 value) in
    if value == ""
    then none
    else some (join_dots "v1" (c.base64url iv) (c.base64url ciphertext) (c.base64url tag))

unfoldable pub open_parts : (c : Crypto) → c.Bytes → c.Bytes → c.Bytes → Option String
open_parts c iv ciphertext tag =
    if not (c.size iv =? iv_bytes) || (not (c.size tag =? 16) || c.size ciphertext =? 0)
    then none
    else elim (c.unseal iv (c.utf8 credential_aad) ciphertext tag) [
      | none ↦ none
      | some bytes ↦ some (c.from_utf8 bytes)
    ]

abbrev pub decrypt_parts : (c : Crypto) → List String → Option String
decrypt_parts c (version ∷ iv ∷ ciphertext ∷ tag ∷ []) =
    if not (version == "v1") || (iv == "" || (ciphertext == "" || tag == ""))
    then none
    else open_parts c (c.from_base64url iv) (c.from_base64url ciphertext) (c.from_base64url tag)
decrypt_parts c _ = none

unfoldable pub decrypt : Crypto → String → Option String
decrypt c envelope = decrypt_parts c (split_dots envelope)
