-- ===== src/EventBus.antt =====
-- apps/api/src/services/dashboardEventBus.ts
pub mod Delivery
pub mod Timer
mod Tests
use Prim.Native.Char.{nul}
use Prim.Native.String
use memo_repo.Prelude.{
  ℕ, String, suc, Bool, true, false, ◌||◌, Option, none, some, List, [], ◌∷◌, ◌++◌, ◌==◌, ◌=?◌,
  if◌then◌else◌, map_set, values,
}

pub data ResourceType : Type 0 where
  spaces space jobs job snapshots connections maintenance system preflight agent : ResourceType

abbrev pub type_name : ResourceType → String
type_name spaces = "spaces"
type_name space = "space"
type_name jobs = "jobs"
type_name job = "job"
type_name snapshots = "snapshots"
type_name connections = "connections"
type_name maintenance = "maintenance"
type_name system = "system"
type_name preflight = "preflight"
type_name agent = "agent"

-- `DashboardResource`; an absent field is `none`.
pub record Resource : Type 0 where
  pub kind : ResourceType
  pub space_id : Option String
  pub job_id : Option String
  pub chat_id : Option String

pub record InvalidationEvent : Type 0 where
  pub event_id : String × ℕ  -- `instanceId` and the sequence number behind it
  pub occurred_at : ℕ
  pub resources : List Resource

-- A listener is known by its identity, as in the `Set`. `delivered` holds each call of a listener.
pub record Bus : Type 0 where
  pub instance_id : String
  pub sequence : ℕ
  pub listeners : List ℕ
  pub pending : List (String × Resource)
  pub flush_timer : Bool
  pub delivered : List (ℕ × InvalidationEvent)

-- A value that JavaScript takes for true.
abbrev pub truthy : Option String → Option String
truthy none = none
truthy (some s) = if s == "" then none else some s

unfoldable pub normalize_resource : Resource → Resource
normalize_resource r = record {
  kind = r.kind;
  space_id = truthy r.space_id;
  job_id = truthy r.job_id;
  chat_id = truthy r.chat_id;
}

abbrev pub or_empty : Option String → String
or_empty none = ""
or_empty (some s) = s

infixr 65 ◌+++◌
abbrev ◌+++◌ : String → String → String
s +++ t = String.◌++◌ s t

-- `[…].join("\0")`
abbrev nul_then : String → String
nul_then s = String.◌∷◌ nul s

unfoldable pub resource_key : Resource → String
resource_key r =
    type_name r.kind
    +++ nul_then
        (or_empty r.space_id +++ nul_then (or_empty r.job_id +++ nul_then (or_empty r.chat_id)))

unfoldable pub put_all : List Resource → List (String × Resource) → List (String × Resource)
put_all [] m = m
put_all (r ∷ rs) m = let n = normalize_resource r in put_all rs (map_set (resource_key n) n m)

abbrev pub is_empty {ℓ} : {A : Type ℓ} → List A → Bool
is_empty [] = true
is_empty (_ ∷ _) = false

-- The timer that is armed is `flush_timer`; it fires as `flush`.
unfoldable pub publish : List Resource → Bus → Bus
publish rs b =
    let pending = put_all rs b.pending in
    if is_empty pending || b.flush_timer
    then record b { pending = pending }
    else record b { pending = pending; flush_timer = true }

abbrev pub contains : ℕ → List ℕ → Bool
contains a [] = false
contains a (x ∷ xs) = (x =? a) || contains a xs

abbrev pub delete : ℕ → List ℕ → List ℕ
delete a [] = []
delete a (x ∷ xs) = let rest = delete a xs in if x =? a then rest else x ∷ rest

unfoldable pub subscribe : ℕ → Bus → Bus
subscribe l b = if contains l b.listeners then b else record b { listeners = b.listeners ++ l ∷ [] }

-- The function that `subscribe` returns.
unfoldable pub unsubscribe : ℕ → Bus → Bus
unsubscribe l b = record b { listeners = delete l b.listeners }

unfoldable pub next_event_id : Bus → (String × ℕ) × Bus
next_event_id b = ((b.instance_id, suc b.sequence), record b { sequence = suc b.sequence })

unfoldable pub close : Bus → Bus
close b = record b { flush_timer = false; pending = []; listeners = [] }

-- The call of one listener; `throws l` tells whether it throws.
unfoldable pub call : (ℕ → Bool) → InvalidationEvent → ℕ → Bus → Bus
call throws e l b =
    let called = record b { delivered = b.delivered ++ (l, e) ∷ [] } in
    if throws l then record called { listeners = delete l called.listeners } else called

unfoldable pub deliver : (ℕ → Bool) → InvalidationEvent → List ℕ → Bus → Bus
unfolding call
deliver throws e [] b = b
deliver throws e (l ∷ ls) b = deliver throws e ls (call throws e l b)

-- `now` is the time at which the timer fires.
unfoldable pub flush : (ℕ → Bool) → ℕ → Bus → Bus
unfolding deliver next_event_id
flush throws now b =
    let idle = record b { flush_timer = false } in
    if is_empty b.pending
    then idle
    else let (id, numbered) = next_event_id (record idle { pending = [] }) in
      let e : InvalidationEvent = record {
        event_id = id;
        occurred_at = now;
        resources = values b.pending;
      } in
      deliver throws e numbered.listeners numbered
