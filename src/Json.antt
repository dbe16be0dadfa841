-- ===== src/Json.antt =====
-- JSON values as JavaScript holds them: the canonical text of a job's payload
-- (`stableJsonStringify` and `sortJsonValue` in apps/api/src/services/jobRunner.ts).
pub mod Stable
use Prim.Native.Char.{Char, code}
use Prim.Native.Nat.{◌/◌, ◌%◌}
use Prim.Native.String
use memo_repo.Prelude.{
  ℕ, String, suc, ◌+◌, ◌-◌, ◌*◌, Bool, true, false, ◌&&◌, Option, none, some, List, [], ◌∷◌, ◌++◌,
  ltb, leb, ◌=?◌, ◌==◌, if◌then◌else◌,
}

-- A number stands by the text that JavaScript prints for it. The fields of an object stand in the
-- order in which `Object.entries` lists them.
mutual
  pub data Json : Type 0 where
    null : Json
    bool : Bool → Json
    num : String → Json
    str : String → Json
    arr : Items → Json
    obj : Fields → Json

  pub data Items : Type 0 where
    nil : Items
    cons : Json → Items → Items

  pub data Fields : Type 0 where
    end : Fields
    field : String → Json → Fields → Fields

infixr 65 ◌+++◌
abbrev pub ◌+++◌ : String → String → String
s +++ t = String.◌++◌ s t

abbrev hex_digit : ℕ → String
hex_digit d =
    if d =? 10
    then "a"
    else if d =? 11
    then "b"
    else if d =? 12
    then "c"
    else if d =? 13
    then "d"
    else if d =? 14
    then "e"
    else if d =? 15
    then "f"
    else if d =? 0
    then "0"
    else if d =? 1
    then "1"
    else if d =? 2
    then "2"
    else if d =? 3
    then "3"
    else if d =? 4
    then "4"
    else if d =? 5
    then "5"
    else if d =? 6
    then "6"
    else if d =? 7
    then "7"
    else if d =? 8
    then "8"
    else "9"

-- One character of a quoted text, as `JSON.stringify` writes it.
unfoldable pub escape : Char → String
escape c =
    let n = code c in
    if n =? b'"'
    then "\\\""
    else if n =? b'\\'
    then "\\\\"
    else if n =? 8
    then "\\b"
    else if n =? 9
    then "\\t"
    else if n =? 10
    then "\\n"
    else if n =? 12
    then "\\f"
    else if n =? 13
    then "\\r"
    else if ltb n 32
    then "\\u00" +++ (hex_digit (n / 16) +++ hex_digit (n % 16))
    else String.◌∷◌ c String.[]

unfoldable pub escape_all : String → String
unfolding escape
escape_all String.[] = ""
escape_all (String.◌∷◌ c s) = escape c +++ escape_all s

unfoldable pub quote : String → String
unfolding escape_all
quote s = "\"" +++ (escape_all s +++ "\"")

-- `JSON.stringify`
unfoldable mutual
  unfolding quote

  pub stringify : Json → String
  stringify null = "null"
  stringify (bool true) = "true"
  stringify (bool false) = "false"
  stringify (num text) = text
  stringify (str s) = quote s
  stringify (arr xs) = "[" +++ (stringify_items xs +++ "]")
  stringify (obj fs) = "{" +++ (stringify_fields fs +++ "}")

  pub stringify_items : Items → String
  stringify_items nil = ""
  stringify_items (cons x nil) = stringify x
  stringify_items (cons x (cons y ys)) = stringify x +++ ("," +++ stringify_items (cons y ys))

  pub stringify_fields : Fields → String
  stringify_fields end = ""
  stringify_fields (field k v end) = quote k +++ (":" +++ stringify v)
  stringify_fields (field k v (field j w fs)) =
      quote k +++ (":" +++ (stringify v +++ ("," +++ stringify_fields (field j w fs))))
