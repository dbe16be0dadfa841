-- ===== src/Credential/Reopens.antt =====
-- A token that was stored is read back.
use Prim.Native.Char.{Char}
use Prim.Native.String
use text.Mathlib.TextLemmas.{nil-append, cons-append}
use memo_repo.Prelude.{
  String, Bool, true, false, not, Option, none, some, [], ◌∷◌, ◌=?◌, ◌==◌, ◌≡◌, refl, sym, ap, ◌∙◌,
  arith, Bool-cases, eq_iff, inl, inr,
}
use memo_repo.Domain.Slug.PathName.{every_char}
use memo_repo.Credential.{
  Crypto, iv_bytes, credential_aad, dot, split_dots, join_dots, encrypt, open_parts, decrypt,
}

abbrev pub no_dot : Char → Bool
no_dot c = not (dot c)

-- What the cipher relies on, as Node documents it.
pub record IsReliable (c : Crypto) : Type 0 where
  -- AES-GCM gives back what was sealed under the same nonce and data, keeps the length, and its tag has 16
  -- bytes.
  pub unseals :
      (iv aad text : c.Bytes)
      → c.unseal iv aad (c.seal iv aad text).0 (c.seal iv aad text).1 ≡ some text
  pub keeps_size : (iv aad text : c.Bytes) → c.size (c.seal iv aad text).0 ≡ c.size text
  pub tag_size : (iv aad text : c.Bytes) → c.size (c.seal iv aad text).1 ≡ 16
  -- base64url is read back, its alphabet has no dot, and the empty text is no bytes.
  pub decodes : (b : c.Bytes) → c.from_base64url (c.base64url b) ≡ b
  pub alphabet : (b : c.Bytes) → every_char no_dot (c.base64url b) ≡ true
  pub no_bytes : c.size (c.from_base64url "") ≡ 0
  -- UTF-8 is read back, and a text that is not empty has bytes.
  pub reads : (s : String) → c.from_utf8 (c.utf8 s) ≡ s
  pub has_bytes : (s : String) → (s == "") ≡ false → (c.size (c.utf8 s) =? 0) ≡ false

split-dot :
    (s t : String)
    → every_char no_dot s ≡ true
    → split_dots (String.◌++◌ s (String.◌++◌ "." t)) ≡ s ∷ split_dots t
unfolding every_char split_dots
split-dot String.[] t h = rw (nil-append, cons-append, nil-append) refl
split-dot (String.◌∷◌ c s) t h =
    let n : dot c ≡ false = ground arith in rw (cons-append, n, split-dot s t (ground arith)) refl

split-last : (s : String) → every_char no_dot s ≡ true → split_dots s ≡ s ∷ []
unfolding every_char split_dots
split-last String.[] h = refl
split-last (String.◌∷◌ c s) h =
    let n : dot c ≡ false = ground arith in rw (n, split-last s (ground arith)) refl

split-join :
    (a b c d : String)
    → every_char no_dot a ≡ true
    → every_char no_dot b ≡ true
    → every_char no_dot c ≡ true
    → every_char no_dot d ≡ true
    → split_dots (join_dots a b c d) ≡ a ∷ b ∷ c ∷ d ∷ []
split-join a b c d h k l m =
    let third = split-dot c d l ∙ ap (λ ss. c ∷ ss) (split-last d m) in
    let second = split-dot b (String.◌++◌ c (String.◌++◌ "." d)) k ∙ ap (λ ss. b ∷ ss) third in
    split-dot a (String.◌++◌ b (String.◌++◌ "." (String.◌++◌ c (String.◌++◌ "." d)))) h
    ∙ ap (λ ss. a ∷ ss) second

-- What has bytes has a text in base64url.
encoded-nonempty :
    (c : Crypto) (b : c.Bytes)
    → IsReliable c
    → (c.size b =? 0) ≡ false
    → (c.base64url b == "") ≡ false
encoded-nonempty c b r h = elim (Bool-cases (c.base64url b == "")) [
  | inl e ↦
      let empty : c.base64url b ≡ "" = (eq_iff (c.base64url b) "").0 e in
      let nothing : c.size b ≡ 0 =
        ap c.size (sym (r.decodes b) ∙ ap c.from_base64url empty) ∙ r.no_bytes in
      absurd (ground arith)
  | inr e ↦ e
]

-- A token that was encrypted and decrypted again.
abbrev pub reopened : (c : Crypto) → c.Bytes → String → Option String
reopened c iv value = elim (encrypt c iv value) [ none ↦ none | some envelope ↦ decrypt c envelope ]

opened-parts :
    (c : Crypto) (iv : c.Bytes) (value : String)
    → IsReliable c
    → c.size iv ≡ iv_bytes
    → (value == "") ≡ false
    → open_parts c iv
        (c.seal iv (c.utf8 credential_aad) (c.utf8 value)).0
        (c.seal iv (c.utf8 credential_aad) (c.utf8 value)).1
      ≡ some value
unfolding open_parts
opened-parts c iv value r h n =
    rw
      (
        h,
        r.tag_size iv (c.utf8 credential_aad) (c.utf8 value),
        r.keeps_size iv (c.utf8 credential_aad) (c.utf8 value),
        r.has_bytes value n,
        r.unseals iv (c.utf8 credential_aad) (c.utf8 value),
        r.reads value,
      )
      refl

decrypt-join :
    (c : Crypto) (iv ciphertext tag : c.Bytes)
    → IsReliable c
    → (c.size iv =? 0) ≡ false
    → (c.size ciphertext =? 0) ≡ false
    → (c.size tag =? 0) ≡ false
    → decrypt c (join_dots "v1" (c.base64url iv) (c.base64url ciphertext) (c.base64url tag))
      ≡ open_parts c iv ciphertext tag
unfolding decrypt every_char
decrypt-join c iv ciphertext tag r h k l =
    let parts =
      split-join "v1" (c.base64url iv) (c.base64url ciphertext) (c.base64url tag) refl
        (r.alphabet iv) (r.alphabet ciphertext) (r.alphabet tag) in
    rw
      (
        parts,
        encoded-nonempty c iv r h,
        encoded-nonempty c ciphertext r k,
        encoded-nonempty c tag r l,
        r.decodes iv,
        r.decodes ciphertext,
        r.decodes tag,
      )
      refl

-- If AES-GCM, base64url and UTF-8 give back what went into them, then a token that is not empty and was
-- encrypted under a nonce of twelve bytes is decrypted to itself: the encryption does not throw, and its
-- envelope is taken apart as it was put together, and passes every check.
pub decrypt-encrypt :
    (c : Crypto) (iv : c.Bytes) (value : String)
    → IsReliable c
    → c.size iv ≡ iv_bytes
    → (value == "") ≡ false
    → reopened c iv value ≡ some value
unfolding encrypt
decrypt-encrypt c iv value r h n =
    let sealed = c.seal iv (c.utf8 credential_aad) (c.utf8 value) in
    let ciphertext_size = r.keeps_size iv (c.utf8 credential_aad) (c.utf8 value) in
    let tag_size = r.tag_size iv (c.utf8 credential_aad) (c.utf8 value) in
    let has_iv : (c.size iv =? 0) ≡ false = rw h refl in
    let has_text : (c.size sealed.0 =? 0) ≡ false = rw ciphertext_size (r.has_bytes value n) in
    let has_tag : (c.size sealed.1 =? 0) ≡ false = rw tag_size refl in
    rw (n, reopened)
      (decrypt-join c iv sealed.0 sealed.1 r has_iv has_text has_tag
        ∙ opened-parts c iv value r h n)
