-- ===== src/Settlement/Reconcile/Terms/Values.antt =====
-- Single values of a context, written for the outbox and read back.
use tokenpanel.Prelude.{
  ℕ, ◌≡◌, refl, ap, ◌∙◌, true, Option, none, some, List, [], ◌∷◌, Bool-cases, inl, inr, arith, Text,
  same, if◌then◌else◌,
}
use tokenpanel.Prelude.Int.{ℤ, pos, leb_ℤ}
use tokenpanel.Billing.Charges.{
  CacheAccountingMode, subset, additive, Usage, Protocol, openai, anthropic,
}
use tokenpanel.Limits.Wire.{LimitHoldWire}
use tokenpanel.Providers.ProviderUsage.{max_safe}
use tokenpanel.Settlement.Outbox.{Value, text, number, usage, limit_holds, Context}
use tokenpanel.Settlement.Settle.Record.{ActorKind, customer_key, management_key, playground}
use tokenpanel.Settlement.Settle.Usage.{is_positive}
use tokenpanel.Settlement.Settle.Context.{
  Platform, entry_if, entries, kind_text, mode_text, map_value, hex_or_null, or_null, if_positive,
}
use tokenpanel.Settlement.Settle.OrOutbox.{outbox_protocol}
use tokenpanel.Settlement.Reconcile.Thaw.{
  lookup, or_else, as_text, as_number, as_usage, as_holds, chain, kind_of, mode_in, reserved_in,
  is_token_usage, protocol_of,
}

-- The value under a key, among entries that may be left out.
abbrev pub entry_at : Text → List (Text × Option Value) → Option Value → Option Value
entry_at k [] z = z
entry_at k ((j, o) ∷ more) z = if same j k then or_else o (entry_at k more z) else entry_at k more z

pub lookup-entry_if :
    (k j : Text) (o : Option Value) (rest : Context)
    → lookup k (entry_if j o rest) ≡ (if same j k then or_else o (lookup k rest) else lookup k rest)
lookup-entry_if k j none rest = elim (Bool-cases (same j k)) [
  | inl e ↦ rw e refl
  | inr e ↦ rw e refl
]
lookup-entry_if k j (some v) rest = elim (Bool-cases (same j k)) [
  | inl e ↦ rw e refl
  | inr e ↦ rw e refl
]

pub lookup-entries :
    (k : Text) (more : List (Text × Option Value)) (extra : Context)
    → lookup k (entries more extra) ≡ entry_at k more (lookup k extra)
lookup-entries k [] extra = refl
lookup-entries k ((j, o) ∷ more) extra =
    lookup-entry_if k j o (entries more extra)
    ∙ ap (λ z. if same j k then or_else o z else z) (lookup-entries k more extra)

-- Reading back what was written.
pub kind_back : (k : ActorKind) → kind_of (some (kind_text k)) ≡ k
unfolding same
kind_back customer_key = refl
kind_back management_key = refl
kind_back playground = refl

pub mode_back : (m : CacheAccountingMode) → mode_in (some (mode_text m)) ≡ some m
unfolding same
mode_back subset = refl
mode_back additive = refl

pub text_back : (o : Option Text) → as_text (or_else (map_value text o) none) ≡ o
text_back none = refl
text_back (some t) = refl

pub email_back : (o : Option Text) → as_text (some (or_null o)) ≡ o
email_back none = refl
email_back (some t) = refl

pub protocol_back : (p : Protocol) → protocol_of (some (outbox_protocol p)) ≡ p
protocol_back openai = refl
protocol_back anthropic = refl

pub hex_back :
    (platform : Platform) (o : Option ℕ)
    → ((n : ℕ) → platform.of_hex (platform.to_hex n) ≡ some n)
    → chain platform.of_hex (as_text (some (hex_or_null platform.to_hex o))) ≡ o
hex_back platform none h = refl
hex_back platform (some n) h = h n

pub reserved_back :
    (n : ℤ)
    → leb_ℤ (pos 0) n ≡ true
    → leb_ℤ n (pos max_safe) ≡ true
    → reserved_in (as_number (or_else (map_value number (if_positive (some n))) none)) ≡ n
reserved_back n l h = elim (Bool-cases (is_positive n)) [
  | inl e ↦ rw e (rw (h, e) refl)
  | inr e ↦ rw e (ground (arith, l, e))
]

pub counted_usage : (v : Usage) → is_token_usage v ≡ true → as_usage (some (usage v)) ≡ some v
counted_usage v h = rw h refl

pub holds_back :
    (o : Option (List LimitHoldWire)) → as_holds (or_else (map_value limit_holds o) none) ≡ o
holds_back none = refl
holds_back (some ws) = refl
