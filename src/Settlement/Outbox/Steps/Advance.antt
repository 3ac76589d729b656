-- ===== src/Settlement/Outbox/Steps/Advance.antt =====
-- What an update of a row of the outbox never undoes, for each update document.
use tokenpanel.Prelude.{
  ℕ, ◌+◌, ◌≤◌, ◌≡◌, refl, ap, ◌∙◌, Bool, true, false, not, ◌&&◌, ◌||◌, List, arith, ltb, ◌==◌, Text,
}
use tokenpanel.Settlement.Outbox.{
  Status, in_progress, reconciled, failed, abandoned, Value, Row, Claim, status_eq,
}
use tokenpanel.Settlement.Outbox.Repo.{
  attempts_or_zero, is_candidate, holds_claim, expects, claimed, renewed, closed, closed_with,
  released,
}

-- A status that no worker takes up again.
unfoldable pub is_terminal : Status → Bool
is_terminal reconciled = true
is_terminal failed = true
is_terminal abandoned = true
is_terminal _ = false

-- No claim made at `n` attempts or fewer is good any more.
unfoldable pub is_spent : ℕ → Row → Bool
unfolding status_eq
is_spent n r =
    ltb n (attempts_or_zero r.attempts)
    || (attempts_or_zero r.attempts == n && not (status_eq r.status in_progress))

-- What no step undoes.
pub record Advances (r r' : Row) : Type 0 where
  pub same_id : r'.id ≡ r.id
  pub same_gateway : r'.gateway_request_id ≡ r.gateway_request_id
  pub same_customer : r'.customer_id ≡ r.customer_id
  pub attempts_le : attempts_or_zero r.attempts ≤ attempts_or_zero r'.attempts
  pub terminal_stays : is_terminal r.status ≡ true → r' ≡ r
  pub spent_stays : (n : ℕ) → is_spent n r ≡ true → is_spent n r' ≡ true

pub Advances-refl : (r : Row) → Advances r r
Advances-refl r = record {
  same_id = refl;
  same_gateway = refl;
  same_customer = refl;
  attempts_le = omega arith;
  terminal_stays = λ t. refl;
  spent_stays = λ n h. h;
}

pub Advances-trans : {a b c : Row} → Advances a b → Advances b c → Advances a c
Advances-trans {a} {b} {c} p q = record {
  same_id = q.same_id ∙ p.same_id;
  same_gateway = q.same_gateway ∙ p.same_gateway;
  same_customer = q.same_customer ∙ p.same_customer;
  attempts_le = omega (arith, p.attempts_le, q.attempts_le);
  terminal_stays = λ t.
      let e = p.terminal_stays t in
      q.terminal_stays (ap (λ (r : Row). is_terminal r.status) e ∙ t) ∙ e;
  spent_stays = λ n h. q.spent_stays n (p.spent_stays n h);
}

-- One lemma for each update document, under the filter that guards it.
pub claimed-Advances :
    (row r : Row) (token : Text) (now lease : ℕ)
    → is_candidate now row ≡ true
    → expects row.status (attempts_or_zero row.attempts) now r ≡ true
    → Advances r (claimed (attempts_or_zero row.attempts + 1) token now lease r)
unfolding is_candidate expects claimed is_terminal is_spent
claimed-Advances row r token now lease c h = record {
  same_id = refl;
  same_gateway = refl;
  same_customer = refl;
  attempts_le = ground arith;
  terminal_stays = λ t. ground arith;
  spent_stays = λ n s. ground arith;
}

pub renewed-Advances :
    (claim : Claim) (r : Row) (now lease : ℕ)
    → holds_claim claim r ≡ true
    → Advances r (renewed now lease r)
unfolding holds_claim renewed is_terminal is_spent
renewed-Advances claim r now lease h = record {
  same_id = refl;
  same_gateway = refl;
  same_customer = refl;
  attempts_le = ground arith;
  terminal_stays = λ t. ground arith;
  spent_stays = λ n s. ground arith;
}

pub closed-Advances :
    (claim : Claim) (st : Status) (r : Row) (now : ℕ)
    → holds_claim claim r ≡ true
    → status_eq st in_progress ≡ false
    → Advances r (closed st now r)
unfolding holds_claim closed is_terminal is_spent
closed-Advances claim st r now h ne = record {
  same_id = refl;
  same_gateway = refl;
  same_customer = refl;
  attempts_le = ground arith;
  terminal_stays = λ t. ground arith;
  spent_stays = λ n s. ground arith;
}

pub released-Advances :
    (claim : Claim) (r : Row) (now at : ℕ) (context : List (Text × Value))
    → holds_claim claim r ≡ true
    → Advances r (released now at context r)
unfolding holds_claim released is_terminal is_spent
released-Advances claim r now at context h = record {
  same_id = refl;
  same_gateway = refl;
  same_customer = refl;
  attempts_le = ground arith;
  terminal_stays = λ t. ground arith;
  spent_stays = λ n s. ground arith;
}

pub closed_with-Advances :
    (claim : Claim) (st : Status) (r : Row) (now : ℕ) (context : List (Text × Value))
    → holds_claim claim r ≡ true
    → status_eq st in_progress ≡ false
    → Advances r (closed_with st now context r)
unfolding holds_claim closed_with is_terminal is_spent
closed_with-Advances claim st r now context h ne = record {
  same_id = refl;
  same_gateway = refl;
  same_customer = refl;
  attempts_le = ground arith;
  terminal_stays = λ t. ground arith;
  spent_stays = λ n s. ground arith;
}
