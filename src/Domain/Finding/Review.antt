-- ===== src/Domain/Finding/Review.antt =====
-- The review of a finding as a state machine: what any sequence of calls can reach.
use security_review_ai.Prelude.{ℕ, ◌+◌, ◌≤◌, ◌≡◌, ◌≢◌, sym, refl, List, [], ◌∷◌, arith}
use mathlib.Core.Path.{subst}
use security_review_ai.Exec.{ok}
use security_review_ai.Domain.Finding.{
  Finding, FindingStatus, confirm, resolve, mark_false_positive,
}

-- a call of one of the three methods that did not raise
pub data Step (f g : Finding) : Type 0 where
  confirms : (now : ℕ) → confirm now f ≡ ok g → Step f g
  resolves : (now : ℕ) → resolve now f ≡ ok g → Step f g
  rejects : (now : ℕ) → mark_false_positive now f ≡ ok g → Step f g

pub data Reach (f : Finding) : Finding → Type 0 where
  here : Reach f f
  next : {g h : Finding} → Reach f g → Step g h → Reach f h

-- how far the review has gone
abbrev pub rank : FindingStatus → ℕ
rank FindingStatus.opened = 0
rank FindingStatus.confirmed = 1
rank FindingStatus.resolved = 2
rank FindingStatus.false_positive = 2

abbrev pub IsFinal : FindingStatus → Type 0
IsFinal FindingStatus.resolved = Unit
IsFinal FindingStatus.false_positive = Unit
IsFinal _ = ⊥

-- Each call that succeeds moves the review strictly forward.
Step-rank : {f g : Finding} → Step f g → rank f.status + 1 ≤ rank g.status
unfolding confirm resolve mark_false_positive
Step-rank (confirms now e) = ground arith
Step-rank (resolves now e) = ground arith
Step-rank (rejects now e) = ground arith

Step-resolved :
    {f g : Finding}
    → Step f g
    → g.status ≡ FindingStatus.resolved
    → f.status ≡ FindingStatus.confirmed
unfolding confirm resolve mark_false_positive
Step-resolved (confirms now e) h = ground arith
Step-resolved (resolves now e) h = ground arith
Step-resolved (rejects now e) h = ground arith

Step-of_final : {f g : Finding} → Step f g → IsFinal f.status → ⊥
unfolding confirm resolve mark_false_positive
Step-of_final (confirms now e) h = ground arith
Step-of_final (resolves now e) h = ground arith
Step-of_final (rejects now e) h = ground arith

-- the status after every call of a sequence, the latest first, down to the one at its start
pub history : {f g : Finding} → Reach f g → List FindingStatus
history {f} here = f.status ∷ []
history (next {g} {h} r st) = h.status ∷ history r

Step-confirmed :
    {f g : Finding}
    → Step f g
    → g.status ≡ FindingStatus.confirmed
    → f.status ≡ FindingStatus.opened
unfolding confirm resolve mark_false_positive
Step-confirmed (confirms now e) h = ground arith
Step-confirmed (resolves now e) h = ground arith
Step-confirmed (rejects now e) h = ground arith

Step-opened : {f g : Finding} → Step f g → g.status ≢ FindingStatus.opened
unfolding confirm resolve mark_false_positive
Step-opened (confirms now e) h = ground arith
Step-opened (resolves now e) h = ground arith
Step-opened (rejects now e) h = ground arith

history-of_opened :
    {f g : Finding} (path : Reach f g)
    → g.status ≡ FindingStatus.opened
    → history path ≡ FindingStatus.opened ∷ []
unfolding history
history-of_opened here e = rw e refl
history-of_opened (next r st) e = absurd (Step-opened st e)

history-of_confirmed :
    {f g : Finding} (path : Reach f g)
    → f.status ≡ FindingStatus.opened
    → g.status ≡ FindingStatus.confirmed
    → history path ≡ FindingStatus.confirmed ∷ FindingStatus.opened ∷ []
unfolding history
history-of_confirmed here a e = absurd (cc)
history-of_confirmed (next r st) a e = rw (e, history-of_opened r (Step-confirmed st e)) refl

-- Whatever calls are made, if they take an open finding to a resolved one, the statuses after
-- them are, in order, open, confirmed and resolved, each once.
pub resolved_after_confirmed :
    {f g : Finding} (path : Reach f g)
    → f.status ≡ FindingStatus.opened
    → g.status ≡ FindingStatus.resolved
    → history path ≡ FindingStatus.resolved ∷ FindingStatus.confirmed ∷ FindingStatus.opened ∷ []
unfolding history
resolved_after_confirmed here a b = absurd (cc)
resolved_after_confirmed (next r st) a b =
    rw (b, history-of_confirmed r a (Step-resolved st b)) refl

-- A resolved finding or a false positive is final: no call changes it any more.
final_stays : {f g : Finding} → IsFinal f.status → Reach f g → g ≡ f
final_stays h here = refl
final_stays h (next {g} r st) =
    absurd (Step-of_final st (subst (λ x. IsFinal x.status) (sym (final_stays h r)) h))
