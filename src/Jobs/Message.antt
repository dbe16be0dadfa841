-- ===== src/Jobs/Message.antt =====
-- `truncateEventMessage` and `jobErrorCode` of jobRunner.ts.
use Prim.Native.Char.{Char, code}
use Prim.Native.String
use text.Mathlib.TextLemmas.{nil-append, cons-append}
use memo_repo.Text.{
  to_upper, map_chars, dash_runs, trim_start_dashes, trim_end_dashes, is_upper, is_digit,
}
use memo_repo.Prelude.{
  ◌==◌, false, ◌||◌, Bool, inr, inl, Bool-cases, arith, ℕ, String, ◌+◌, ◌-◌, ◌*◌, ◌≤◌, ◌≡◌, ltb,
  leb, ◌=?◌, if◌then◌else◌,
}

infixr 65 ◌+++◌
abbrev pub ◌+++◌ : String → String → String
s +++ t = String.◌++◌ s t

abbrev pub event_message_max_bytes : ℕ
event_message_max_bytes = 16 * 1024

unfoldable pub utf8_size : Char → ℕ
utf8_size c =
    let n = code c in
    if ltb n 0x80 then 1 else if ltb n 0x800 then 2 else if ltb n 0x10000 then 3 else 4

-- `Buffer.byteLength(text, "utf8")`
unfoldable pub byte_length : String → ℕ
byte_length String.[] = 0
byte_length (String.◌∷◌ c s) = utf8_size c + byte_length s

-- `.replace(/\uFFFD$/, "")` on a text of one character
pub without_replacement : Char → String
without_replacement c = if code c =? 0xFFFD then "" else String.◌∷◌ c String.[]

-- `buffer.subarray(0, budget).toString("utf8").replace(/\uFFFD$/, "")`: the characters that fit.
-- The bytes of one that fits in part decode to U+FFFD at the end, which `replace` takes away; so it
-- does with a U+FFFD of the text that ends at the budget.
unfoldable pub utf8_prefix : ℕ → String → String
utf8_prefix budget String.[] = ""
utf8_prefix budget (String.◌∷◌ c s) =
    let rest = utf8_prefix (budget - utf8_size c) s in
    if ltb budget (utf8_size c)
    then ""
    else if budget =? utf8_size c
    then without_replacement c
    else String.◌∷◌ c rest

abbrev suffix : String
suffix = "\n[message truncated]"

unfoldable pub truncate_event_message : String → String
unfolding byte_length utf8_prefix without_replacement utf8_size
truncate_event_message message =
    if leb (byte_length message) event_message_max_bytes
    then message
    else utf8_prefix (event_message_max_bytes - byte_length suffix) message +++ suffix

byte_length-append : (s t : String) → byte_length (s +++ t) ≡ byte_length s + byte_length t
unfolding byte_length
byte_length-append String.[] t = rw nil-append (omega arith)
byte_length-append (String.◌∷◌ c s) t = rw cons-append (omega (arith, byte_length-append s t))

without_replacement-le : (c : Char) → byte_length (without_replacement c) ≤ utf8_size c
unfolding byte_length without_replacement
without_replacement-le c = elim (Bool-cases (code c =? 0xFFFD)) [
  | inl e ↦ rw e (omega arith)
  | inr e ↦ rw e (omega arith)
]

byte_length-utf8_prefix-le : (budget : ℕ) (s : String) → byte_length (utf8_prefix budget s) ≤ budget
unfolding byte_length utf8_prefix
byte_length-utf8_prefix-le budget String.[] = omega arith
byte_length-utf8_prefix-le budget (String.◌∷◌ c s) = elim (Bool-cases (ltb budget (utf8_size c))) [
  | inl over ↦ rw over (omega arith)
  | inr fits ↦ elim (Bool-cases (budget =? utf8_size c)) [
    | inl e ↦ rw (fits, e) (ground (arith, without_replacement-le c))
    | inr e ↦ rw (fits, e) (ground (arith, byte_length-utf8_prefix-le (budget - utf8_size c) s))
  ]
]

-- What is left of a message that is too long has the bound's length at most.
pub byte_length-truncate_event_message-le :
    (message : String) → byte_length (truncate_event_message message) ≤ event_message_max_bytes
unfolding truncate_event_message
byte_length-truncate_event_message-le m = ground (
  arith,
  byte_length-append (utf8_prefix (event_message_max_bytes - byte_length suffix) m) suffix,
  byte_length-utf8_prefix-le (event_message_max_bytes - byte_length suffix) m,
)

-- [A-Z0-9]
abbrev is_code_char : Char → Bool
is_code_char c = is_upper c || is_digit c

-- The upper case of a job type is that of its ASCII letters.
unfoldable pub job_error_code : String → String
unfolding to_upper map_chars dash_runs trim_start_dashes trim_end_dashes
job_error_code job_type =
    let normalized =
      trim_end_dashes
        (trim_start_dashes (dash_runs is_code_char false (map_chars to_upper job_type))) in
    "MR-JOB-" +++ (if normalized == "" then "UNKNOWN" else normalized)
