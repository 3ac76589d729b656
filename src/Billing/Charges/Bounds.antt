-- ===== src/Billing/Charges/Bounds.antt =====
-- Charges against the base rates, token by token.
use native.Mathlib.Nat.{add-mul, sub-add_cancel, mul-le-mul_left}
use tokenpanel.Prelude.{
  ℕ, ◌+◌, ◌-◌, ◌*◌, ◌≤◌, ◌≡◌, sym, ap, ◌∙◌, min, Option, none, some, ◌==◌, arith, Bool-cases, inl,
  inr,
}
use tokenpanel.Billing.Charges.{
  ChargeSchedule, Usage, CacheAccountingMode, subset, or_zero, count, output_at, output_charge,
  peel, input_charge, apply_token_schedule, resolve_cache_accounting,
}
use tokenpanel.Billing.Charges.Rounding.{ceil_per_million, ceil_mono, ceil_add, add_ceil}

-- A rate that is absent is no rate above the base.
abbrev pub AtMost : Option ℕ → ℕ → Type 0
AtMost none base = Unit
AtMost (some rate) base = rate ≤ base

-- The rates for reasoning and cached tokens are at most the base rates.
pub record IsDiscounted (schedule : ChargeSchedule) : Type 0 where
  pub reasoning : AtMost schedule.reasoning (or_zero schedule.output)
  pub cache_read : AtMost schedule.cache_read (or_zero schedule.input)
  pub cache_write : AtMost schedule.cache_write (or_zero schedule.input)

-- No rate below the base, where there is one.
abbrev pub AtLeast : Option ℕ → ℕ → Type 0
AtLeast none base = Unit
AtLeast (some rate) base = base ≤ rate

pub record IsSurcharged (schedule : ChargeSchedule) : Type 0 where
  pub reasoning : AtLeast schedule.reasoning (or_zero schedule.output)
  pub cache_read : AtLeast schedule.cache_read (or_zero schedule.input)
  pub cache_write : AtLeast schedule.cache_write (or_zero schedule.input)

module _ (tokens part rate base : ℕ) (h : part ≤ tokens) where
  whole : (tokens - part) * base + part * base ≡ tokens * base
  whole = sym (add-mul (tokens - part) part base) ∙ ap (λ n. n * base) (sub-add_cancel h)

  split_le :
      rate ≤ base
      → ceil_per_million ((tokens - part) * base) + ceil_per_million (part * rate)
        ≤ ceil_per_million (tokens * base) + 1
  split_le k = omega (
    arith,
    ceil_mono (part * rate) (part * base) (mul-le-mul_left part k),
    ceil_mono ((tokens - part) * base + part * base) (tokens * base) (omega (arith, whole)),
    ceil_add ((tokens - part) * base) (part * base),
  )

  split_ge :
      base ≤ rate
      → ceil_per_million (tokens * base)
        ≤ ceil_per_million ((tokens - part) * base) + ceil_per_million (part * rate)
  split_ge k = omega (
    arith,
    ceil_mono (part * base) (part * rate) (mul-le-mul_left part k),
    ceil_mono (tokens * base) ((tokens - part) * base + part * base) (omega (arith, whole)),
    add_ceil ((tokens - part) * base) (part * base),
  )

output_at_le :
    (r : Option ℕ) (base completion reasoning : ℕ)
    → AtMost r base
    → reasoning ≤ completion
    → output_at r base completion reasoning ≤ ceil_per_million (completion * base) + 1
output_at_le none base completion reasoning h k = omega arith
output_at_le (some rate) base completion reasoning h k = elim (Bool-cases (reasoning == 0)) [
  | inl e ↦ rw e (omega arith)
  | inr e ↦ rw e (split_le completion reasoning rate base k h)
]

output_at_ge :
    (r : Option ℕ) (base completion reasoning : ℕ)
    → AtLeast r base
    → reasoning ≤ completion
    → ceil_per_million (completion * base) ≤ output_at r base completion reasoning
output_at_ge none base completion reasoning h k = omega arith
output_at_ge (some rate) base completion reasoning h k = elim (Bool-cases (reasoning == 0)) [
  | inl e ↦ rw e (omega arith)
  | inr e ↦ rw e (split_ge completion reasoning rate base k h)
]

peel_le :
    (r : Option ℕ) (base cached remaining : ℕ)
    → AtMost r base
    → ceil_per_million ((peel r cached remaining).0 * base) + (peel r cached remaining).1
      ≤ ceil_per_million (remaining * base) + 1
unfolding peel
peel_le none base cached remaining h = omega arith
peel_le (some rate) base cached remaining h = elim (Bool-cases (cached == 0)) [
  | inl e ↦ rw e (omega arith)
  | inr e ↦ rw e (split_le remaining (min cached remaining) rate base (omega arith) h)
]

peel_ge :
    (r : Option ℕ) (base cached remaining : ℕ)
    → AtLeast r base
    → ceil_per_million (remaining * base)
      ≤ ceil_per_million ((peel r cached remaining).0 * base) + (peel r cached remaining).1
unfolding peel
peel_ge none base cached remaining h = omega arith
peel_ge (some rate) base cached remaining h = elim (Bool-cases (cached == 0)) [
  | inl e ↦ rw e (omega arith)
  | inr e ↦ rw e (split_ge remaining (min cached remaining) rate base (omega arith) h)
]

-- The charge of the same usage with no token counted apart.
abbrev pub base_charge : ChargeSchedule → Usage → ℕ
base_charge schedule usage =
    ceil_per_million (usage.prompt_tokens * or_zero schedule.input)
    + ceil_per_million (usage.completion_tokens * or_zero schedule.output)

module _ (schedule : ChargeSchedule) (usage : Usage) (fallback : Option CacheAccountingMode)
    (mode : resolve_cache_accounting usage fallback ≡ subset) where
  -- Where cached tokens are a subset of the prompt and the rates for reasoning and cached tokens are
  -- at most the base rates, the charge is at most the charge of all tokens at the base rates, plus
  -- one micro of rounding for each of the three kinds that are counted apart.
  pub charge_le :
      IsDiscounted schedule
      → apply_token_schedule schedule usage fallback ≤ base_charge schedule usage + 3
  unfolding apply_token_schedule input_charge output_charge
  charge_le d =
      let read = peel schedule.cache_read (count usage.cache_read_tokens) usage.prompt_tokens in
      rw mode (
        omega (
          arith,
          peel_le schedule.cache_read (or_zero schedule.input) (count usage.cache_read_tokens)
              usage.prompt_tokens d.cache_read,
          peel_le schedule.cache_write (or_zero schedule.input) (count usage.cache_write_tokens)
              read.0 d.cache_write,
          output_at_le schedule.reasoning (or_zero schedule.output) usage.completion_tokens
              (min (count usage.reasoning_tokens) usage.completion_tokens) d.reasoning
              (omega arith),
        ))

  -- Where they are at least the base rates, it is at least that charge: counting tokens apart never
  -- loses one of them.
  pub charge_ge :
      IsSurcharged schedule
      → base_charge schedule usage ≤ apply_token_schedule schedule usage fallback
  unfolding apply_token_schedule input_charge output_charge
  charge_ge d =
      let read = peel schedule.cache_read (count usage.cache_read_tokens) usage.prompt_tokens in
      rw mode (
        omega (
          arith,
          peel_ge schedule.cache_read (or_zero schedule.input) (count usage.cache_read_tokens)
              usage.prompt_tokens d.cache_read,
          peel_ge schedule.cache_write (or_zero schedule.input) (count usage.cache_write_tokens)
              read.0 d.cache_write,
          output_at_ge schedule.reasoning (or_zero schedule.output) usage.completion_tokens
              (min (count usage.reasoning_tokens) usage.completion_tokens) d.reasoning
              (omega arith),
        ))
