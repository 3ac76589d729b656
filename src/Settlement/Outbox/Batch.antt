-- ===== src/Settlement/Outbox/Batch.antt =====
-- The batch claim of `claimDue`: its bound, what it returns, and that it is a run of single claims.
use tokenpanel.Prelude.{ℕ, ◌≤◌, ◌<◌, ◌≡◌, some, List, Text, length, All}
use tokenpanel.Mongo.{Collection, IsCollection}
use tokenpanel.Settlement.Outbox.{in_progress, Row, Result, ok, err}
use tokenpanel.Settlement.Outbox.Repo.{attempts_or_zero}
use tokenpanel.Settlement.Outbox.Service.{clash}
use tokenpanel.Settlement.Outbox.Steps.{IsKeyed, Steps}

-- A row as a claim at `now` returns it.
pub record IsClaimed (now lease_until : ℕ) (r : Row) : Type 0 where
  pub held : r.status ≡ in_progress
  pub counted : 0 < attempts_or_zero r.attempts
  pub leased : r.next_attempt_at ≡ some lease_until
  pub stamped : r.claimed_at ≡ some now

-- The rows that a batch returns, if it ends without a refused document.
abbrev pub ClaimsWithin : ℕ → ℕ → ℕ → Result (List Row) → Type 0
ClaimsWithin limit now lease (err e) = Unit
ClaimsWithin limit now lease (ok l) = (length l ≤ limit) × All (IsClaimed now lease) l

module _ (c : Collection Row) (laws : IsCollection c clash) (new_claim_token : ℕ → Text) where
  open c use {Db, rows}

  LoopSound : ℕ → ℕ → ℕ → Db → Result (List Row) × Db → Type 0
  LoopSound limit now lease db (res, db') =
      ClaimsWithin limit now lease res × Steps c db db' × IsKeyed c db'
