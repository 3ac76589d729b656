-- ===== src/Settlement/Reconcile/Thaw/Fields.antt =====
-- The values of a context, read as the late settlement expects them.
use tokenpanel.Prelude.{
  Bool, true, false, ◌&&◌, Option, none, some, List, [], ◌∷◌, ltb, leb, length, Text, codes, same,
  if◌then◌else◌,
}
use tokenpanel.Prelude.Int.{ℤ}
use tokenpanel.Billing.Charges.{ChargeSchedule, Usage}
use tokenpanel.Limits.{RateLimitRule}
use tokenpanel.Limits.Wire.{LimitHoldWire}
use tokenpanel.Providers.ProviderUsage.{max_safe}
use tokenpanel.Settlement.Outbox.{Value, text, number, usage, schedule, rules, limit_holds, Context}
use tokenpanel.Settlement.Settle.Record.{ActorKind, customer_key, management_key, playground}

-- `ctx[key]`
abbrev pub lookup : Text → Context → Option Value
lookup key [] = none
lookup key ((j, v) ∷ rest) = if same j key then some v else lookup key rest

abbrev pub as_text : Option Value → Option Text
as_text (some (text t)) = some t
as_text _ = none

abbrev pub as_number : Option Value → Option ℤ
as_number (some (number n)) = some n
as_number _ = none

abbrev pub as_schedule : Option Value → Option ChargeSchedule
as_schedule (some (schedule s)) = some s
as_schedule _ = none

abbrev pub as_rules : Option Value → Option (List RateLimitRule)
as_rules (some (rules rs)) = some rs
as_rules _ = none

abbrev pub as_holds : Option Value → Option (List LimitHoldWire)
as_holds (some (limit_holds hs)) = some hs
as_holds _ = none

unfoldable pub is_token_usage : Usage → Bool
is_token_usage u =
    leb u.prompt_tokens max_safe && leb u.completion_tokens max_safe && leb u.total_tokens max_safe

abbrev pub as_usage : Option Value → Option Usage
as_usage (some (usage u)) = if is_token_usage u then some u else none
as_usage _ = none

abbrev pub or_else : {A : Type 0} → Option A → Option A → Option A
or_else (some a) b = some a
or_else none b = b

abbrev pub chain : {A B : Type 0} → (A → Option B) → Option A → Option B
chain f none = none
chain f (some a) = f a

-- A text that is not empty.
abbrev pub filled : Option Text → Option Text
filled none = none
filled (some t) = if ltb 0 (length t) then some t else none

abbrev pub is_some : {A : Type 0} → Option A → Bool
is_some none = false
is_some (some a) = true

abbrev pub with_default : {A : Type 0} → Option A → A → A
with_default (some a) d = a
with_default none d = d

abbrev pub kind_of : Option Text → ActorKind
kind_of none = customer_key
kind_of (some t) =
    if same t (codes "management_key")
    then management_key
    else if same t (codes "playground")
    then playground
    else customer_key
