-- ===== src/Billing/Estimate/Bounds.antt =====
-- The estimate against what the request will be charged.
use native.Mathlib.Nat.{mul-le-mul}
use tokenpanel.Prelude.{
  ℕ, ◌+◌, ◌*◌, ◌≤◌, ◌≡◌, sym, subst, Option, none, some, List, [], ◌∷◌, ◌++◌, Bool, true, false,
  if◌then◌else◌, arith, Text, length,
}
use tokenpanel.Prelude.Int.{ℤ, pos_part}
use tokenpanel.Billing.Charges.{
  CacheAccountingMode, subset, TokenPriceSchedule, Usage, ModelEntry, Model, entry_price,
  charge_schedule, resolve_cache_accounting, compute_charges,
}
use tokenpanel.Billing.Charges.Rounding.{ceil_div, ceil_mono}
use tokenpanel.Billing.Charges.Bounds.{IsDiscounted, charge_le}
use tokenpanel.Billing.Estimate.{
  ContentPart, text_part, other_part, Content, plain, parts, null, count_parts, count_messages,
  estimate_prompt_tokens, WorstPrice, raise, worst_of, worst_case_active_entry_price,
  resolve_completion_cap, estimate_pre_flight_spend,
}

-- The characters of a text, of every text part, and the parts that are not text.
abbrev pub part_chars : List ContentPart → ℕ
part_chars [] = 0
part_chars (text_part t ∷ ps) = length t + part_chars ps
part_chars (other_part ∷ ps) = part_chars ps

abbrev pub part_others : List ContentPart → ℕ
part_others [] = 0
part_others (text_part t ∷ ps) = part_others ps
part_others (other_part ∷ ps) = 1 + part_others ps

abbrev pub text_chars : List Content → ℕ
text_chars [] = 0
text_chars (plain t ∷ ms) = length t + text_chars ms
text_chars (parts ps ∷ ms) = part_chars ps + text_chars ms
text_chars (null ∷ ms) = text_chars ms

abbrev pub others : List Content → ℕ
others [] = 0
others (plain t ∷ ms) = others ms
others (parts ps ∷ ms) = part_others ps + others ms
others (null ∷ ms) = others ms

count_parts_lem :
    (ps : List ContentPart) (acc : ℕ × ℕ)
    → ((count_parts ps acc).0 ≡ acc.0 + part_chars ps)
      × ((count_parts ps acc).1 ≡ acc.1 + part_others ps)
unfolding count_parts
count_parts_lem [] acc = (omega arith, omega arith)
count_parts_lem (text_part t ∷ ps) acc =
    let (h, k) = count_parts_lem ps (acc.0 + length t, acc.1) in
    (omega (arith, h), omega (arith, k))
count_parts_lem (other_part ∷ ps) acc =
    let (h, k) = count_parts_lem ps (acc.0, acc.1 + 1) in (omega (arith, h), omega (arith, k))

count_messages_lem :
    (ms : List Content) (acc : ℕ × ℕ)
    → ((count_messages ms acc).0 ≡ acc.0 + text_chars ms)
      × ((count_messages ms acc).1 ≡ acc.1 + others ms)
unfolding count_messages
count_messages_lem [] acc = (omega arith, omega arith)
count_messages_lem (plain t ∷ ms) acc =
    let (h, k) = count_messages_lem ms (acc.0 + length t, acc.1) in
    (omega (arith, h), omega (arith, k))
count_messages_lem (parts ps ∷ ms) acc =
    let (h, k) = count_messages_lem ms (count_parts ps acc) in
    let (h', k') = count_parts_lem ps acc in (omega (arith, h, h'), omega (arith, k, k'))
count_messages_lem (null ∷ ms) acc = count_messages_lem ms acc

abbrev pub system_chars : Option Text → ℕ
system_chars none = 0
system_chars (some t) = length t

-- The estimate of the prompt is at least one token, counts at least a token for every four characters
-- of the system text and of all text content, and 768 tokens for every other part; and it is at most
-- one token above that.
pub prompt_covered :
    (messages : List Content) (system_text : Option Text)
    → let chars = system_chars system_text + text_chars messages in
      let estimate = estimate_prompt_tokens messages system_text in
      (1 ≤ estimate)
      × (chars + others messages * 3072 ≤ estimate * 4)
      × (estimate * 4 ≤ chars + others messages * 3072 + 4)
unfolding estimate_prompt_tokens ceil_div
prompt_covered messages none =
    let (h, k) = count_messages_lem messages (0, 0) in
    (omega (arith, h, k), omega (arith, h, k), omega (arith, h, k))
prompt_covered messages (some t) =
    let (h, k) = count_messages_lem messages (length t, 0) in
    (omega (arith, h, k), omega (arith, h, k), omega (arith, h, k))

-- Both rates of a schedule are at most the worst price's.
abbrev pub Below : TokenPriceSchedule → WorstPrice → Type 0
Below s p = (s.input ≤ p.input) × (s.output ≤ p.output)

raise_if :
    (b : Bool) (p : WorstPrice) (s : TokenPriceSchedule)
    → (p.input ≤ (if b then raise p s else p).input)
      × (p.output ≤ (if b then raise p s else p).output)
raise_if true p s = (ground arith, ground arith)
raise_if false p s = (omega arith, omega arith)

raise_above : (p : WorstPrice) (s : TokenPriceSchedule) → Below s (raise p s)
raise_above p s = (ground arith, ground arith)

module _ (model : Model) where
  worst_of_ge :
      (es : List ModelEntry) (p : WorstPrice)
      → (p.input ≤ (worst_of model es p).input) × (p.output ≤ (worst_of model es p).output)
  unfolding worst_of
  worst_of_ge [] p = (omega arith, omega arith)
  worst_of_ge (e ∷ es) p =
      let next = if e.active then raise p (entry_price model e) else p in
      let (h, k) = worst_of_ge es next in
      let (x, y) = raise_if e.active p (entry_price model e) in
      (omega (arith, h, x), omega (arith, k, y))

  worst_of_above :
      (before after : List ModelEntry) (e : ModelEntry) (p : WorstPrice)
      → e.active ≡ true
      → Below (entry_price model e) (worst_of model (before ++ e ∷ after) p)
  unfolding worst_of
  worst_of_above [] after e p h =
      let (x, y) = raise_above p (entry_price model e) in
      let (u, v) = worst_of_ge after (raise p (entry_price model e)) in
      rw h (omega (arith, x, u), omega (arith, y, v))
  worst_of_above (b ∷ before) after e p h =
      worst_of_above before after e (if b.active then raise p (entry_price model b) else p) h

  -- Neither rate of the worst price is below the model's own price or the price that an active entry
  -- would be charged at.
  pub worst_case_bounds :
      (before after : List ModelEntry) (e : ModelEntry)
      → model.entries ≡ before ++ e ∷ after
      → e.active ≡ true
      → Below model.price (worst_case_active_entry_price model)
        × Below (entry_price model e) (worst_case_active_entry_price model)
  unfolding worst_case_active_entry_price
  worst_case_bounds before after e at h =
      let start : WorstPrice = record { input = model.price.input; output = model.price.output } in
      (
        worst_of_ge model.entries start,
        subst (λ es. Below (entry_price model e) (worst_of model es start)) (sym at)
            (worst_of_above before after e start h),
      )

  -- If the usage is within the estimate (no more prompt tokens than estimated, no more completion
  -- tokens than the cap), the cached tokens are a subset of the prompt, and the price of the active
  -- entry that served the request has no rate for reasoning or cached tokens above its base rates,
  -- then the price charged is at most the estimated spend plus three micros of rounding.
  pub within_estimate :
      (before after : List ModelEntry) (e : ModelEntry) (usage : Usage)
      (mode : Option CacheAccountingMode) (prompt : ℤ) (cap : Option ℤ)
      → model.entries ≡ before ++ e ∷ after
      → e.active ≡ true
      → resolve_cache_accounting usage mode ≡ subset
      → IsDiscounted (charge_schedule (entry_price model e))
      → usage.prompt_tokens ≤ (estimate_pre_flight_spend model prompt cap).prompt_tokens
      → usage.completion_tokens ≤ (estimate_pre_flight_spend model prompt cap).completion_tokens
      → (compute_charges e model usage mode).price_micros
        ≤ (estimate_pre_flight_spend model prompt cap).estimated_spend_micros + 3
  unfolding compute_charges estimate_pre_flight_spend
  within_estimate before after e usage mode prompt cap at h sub d p q =
      let (own, (i, o)) = worst_case_bounds before after e at h in
      let s = entry_price model e in
      omega (
        arith,
        charge_le (charge_schedule s) usage mode sub d,
        ceil_mono (usage.prompt_tokens * s.input)
            (pos_part prompt * (worst_case_active_entry_price model).input) (mul-le-mul p i),
        ceil_mono (usage.completion_tokens * s.output)
            (resolve_completion_cap cap model * (worst_case_active_entry_price model).output)
            (mul-le-mul q o),
      )
