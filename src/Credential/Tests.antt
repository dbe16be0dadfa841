-- ===== src/Credential/Tests.antt =====
-- A cipher that hides nothing, and a token that goes through it.
use Prim.Native.Char.{Char, code}
use Prim.Native.String
use text.Mathlib.TextEquality.{Char-path}
use memo_repo.Prelude.{
  ap, ℕ, String, suc, Bool, true, false, some, ◌=?◌, ◌==◌, ◌≡◌, refl, arith, if◌then◌else◌,
  Bool-cases, inl, inr,
}
use memo_repo.Domain.Slug.PathName.{every_char}
use memo_repo.Credential.{Crypto, dot}
use memo_repo.Credential.Reopens.{IsReliable, no_dot, decrypt-encrypt, reopened}

abbrev dot_mark : Char
dot_mark = String.char_at "!" 0

abbrev plain_mark : Char
plain_mark = String.char_at "a" 0

abbrev the_dot : Char
the_dot = String.char_at "." 0

abbrev is_dot_mark : Char → Bool
is_dot_mark c = code c =? b'!'

-- Every character goes behind a mark, and a dot is written as `!!`.
undotted : String → String
undotted String.[] = ""
undotted (String.◌∷◌ c s) =
    let rest = undotted s in
    if dot c
    then String.◌∷◌ dot_mark (String.◌∷◌ dot_mark rest)
    else String.◌∷◌ plain_mark (String.◌∷◌ c rest)

redotted : String → String
redotted String.[] = ""
redotted (String.◌∷◌ m String.[]) = ""
redotted (String.◌∷◌ m (String.◌∷◌ c s)) =
    let rest = redotted s in String.◌∷◌ (if is_dot_mark m then the_dot else c) rest

the_dot-code : code the_dot ≡ b'.'
the_dot-code = refl

redotted-undotted : (s : String) → redotted (undotted s) ≡ s
unfolding redotted undotted
redotted-undotted String.[] = refl
redotted-undotted (String.◌∷◌ c s) = elim (Bool-cases (dot c)) [
  | inl e ↦
      let is_dot : the_dot ≡ c = Char-path the_dot c (ground arith) in
      rw (e, redotted-undotted s) (ap (λ d. String.◌∷◌ d s) is_dot)
  | inr e ↦ rw (e, redotted-undotted s) refl
]

undotted-every : (s : String) → every_char no_dot (undotted s) ≡ true
unfolding undotted every_char
undotted-every String.[] = refl
undotted-every (String.◌∷◌ c s) = elim (Bool-cases (dot c)) [
  | inl e ↦ rw (e, undotted-every s) refl
  | inr e ↦ rw (e, e, undotted-every s) refl
]

units : String → ℕ
units String.[] = 0
units (String.◌∷◌ c s) = suc (units s)

units-positive : (s : String) → (s == "") ≡ false → (units s =? 0) ≡ false
unfolding units
units-positive String.[] h = absurd (ground arith)
units-positive (String.◌∷◌ c s) h = ground arith

abbrev open_cipher : Crypto
open_cipher = record {
  Bytes = String;
  size = units;
  utf8 = λ s. s;
  from_utf8 = λ s. s;
  base64url = undotted;
  from_base64url = redotted;
  seal = λ iv aad text. (text, "0123456789abcdef");
  unseal = λ iv aad text tag. some text;
}

open_cipher-IsReliable : IsReliable open_cipher
unfolding units redotted
open_cipher-IsReliable = record {
  unseals = λ iv aad text. refl;
  keeps_size = λ iv aad text. refl;
  tag_size = λ iv aad text. refl;
  decodes = redotted-undotted;
  alphabet = undotted-every;
  no_bytes = refl;
  reads = λ s. refl;
  has_bytes = units-positive;
}

decrypt-encrypt_example : reopened open_cipher "0123456789ab" "gho_1.a" ≡ some "gho_1.a"
unfolding units
decrypt-encrypt_example =
    decrypt-encrypt open_cipher "0123456789ab" "gho_1.a" open_cipher-IsReliable refl refl
