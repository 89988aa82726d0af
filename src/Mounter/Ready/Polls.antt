-- ===== src/Mounter/Ready/Polls.antt =====
-- The poll of waitReady in internal/mounter/realpoint.go over its rounds.
use ocu_rclone_filestore.Base.{
  ℕ, zero, suc, ◌+◌, ◌*◌, ◌/◌, ◌≤◌, ◌<◌, ◌≡◌, ◌⊎◌, inl, inr, ◌↔◌, refl, sym, ◌∙◌, arith, Text, true,
  Option, none, some, GoError,
}
use ocu_rclone_filestore.Mounter.Ready.{
  Poll, poll_interval, not_ready, Verdict, ready, again, stopped, ctx_verdict, round_verdict,
  poll_from, rounds, wait_ready,
}

-- A round that finds the mount listed, or the device boundary.
abbrev pub Confirms : Poll → Type 0
Confirms q = (q.ctx_err ≡ none) × ((q.check ≡ none) ⊎ (q.serves ≡ true))

-- A round after which the poll may go on: the context is alive before and during the wait, and the
-- deadline is ahead.
abbrev pub GoesOn : ℕ → Poll → Type 0
GoesOn deadline q = (q.ctx_err ≡ none) × (q.now < deadline) × (q.wait_err ≡ none)

round_verdict-Confirms : (deadline : ℕ) (q : Poll) → Confirms q → round_verdict deadline q ≡ ready
unfolding round_verdict
round_verdict-Confirms deadline q (alive, inl listed) = rw (alive, listed, ctx_verdict) refl
round_verdict-Confirms deadline q (alive, inr serves) = ground arith

-- A round that may go on confirms, or there is another.
round_verdict-GoesOn :
    (deadline : ℕ) (q : Poll)
    → GoesOn deadline q
    → (round_verdict deadline q ≡ ready) ⊎ (round_verdict deadline q ≡ again)
unfolding round_verdict
round_verdict-GoesOn deadline q (alive, ahead, waits) = ground arith

Confirms-round_verdict : (deadline : ℕ) (q : Poll) → round_verdict deadline q ≡ ready → Confirms q
unfolding round_verdict
Confirms-round_verdict deadline q h = ground arith

GoesOn-round_verdict :
    (deadline : ℕ) (q : Poll) → round_verdict deadline q ≡ again → GoesOn deadline q
unfolding round_verdict
GoesOn-round_verdict deadline q h = ground arith

Verdict-cases : (v : Verdict) → (v ≡ ready) ⊎ (v ≡ again) ⊎ ((e : GoError) × (v ≡ stopped e))
Verdict-cases ready = inl refl
Verdict-cases again = inr (inl refl)
Verdict-cases (stopped e) = inr (inr (e, refl))

-- From round `k` on, some rounds that go on, `n` of them, and then one that confirms.
abbrev pub ReadyAfter : (ℕ → Poll) → ℕ → ℕ → ℕ → Type 0
ReadyAfter polls deadline zero k = Confirms (polls k)
ReadyAfter polls deadline (suc n) k =
    GoesOn deadline (polls k) × ReadyAfter polls deadline n (suc k)

module _ (polls : ℕ → Poll) (deadline : ℕ) (dest : Text) where
  poll_from_total :
      (fuel k : ℕ)
      → ((j : ℕ) → (polls j).now + poll_interval ≤ (polls (suc j)).now)
      → deadline ≤ (polls k).now + 100 * fuel
      → (e : Option GoError) × (poll_from polls deadline dest (suc fuel) k ≡ some e)
  unfolding poll_from
  poll_from_total zero k advances low = elim (Verdict-cases (round_verdict deadline (polls k))) [
    | inl v ↦ (none, rw v)
    | inr (inr (e, v)) ↦ (some (not_ready dest e), rw v)
    | inr (inl v) ↦ absurd (omega (arith, (GoesOn-round_verdict deadline (polls k) v).1))
  ]
  poll_from_total (suc fuel) k advances low =
      elim (Verdict-cases (round_verdict deadline (polls k))) [
        | inl v ↦ (none, rw v)
        | inr (inr (e, v)) ↦ (some (not_ready dest e), rw v)
        | inr (inl v) ↦ rw v (poll_from_total fuel (suc k) advances (omega (arith, advances k)))
      ]

  poll_from-ReadyAfter :
      (n fuel k : ℕ)
      → ReadyAfter polls deadline n k
      → (poll_from polls deadline dest fuel k ≡ none)
        ⊎ (poll_from polls deadline dest fuel k ≡ some none)
  unfolding poll_from
  poll_from-ReadyAfter n zero k h = inl refl
  poll_from-ReadyAfter zero (suc fuel) k h = inr (rw (round_verdict-Confirms deadline (polls k) h))
  poll_from-ReadyAfter (suc n) (suc fuel) k (goes_on, later) =
      elim (round_verdict-GoesOn deadline (polls k) goes_on) [
        | inl v ↦ inr (rw v)
        | inr v ↦ rw v (poll_from-ReadyAfter n fuel (suc k) later)
      ]

  ReadyAfter-poll_from :
      (fuel k : ℕ)
      → poll_from polls deadline dest fuel k ≡ some none
      → (n : ℕ) × ReadyAfter polls deadline n k
  unfolding poll_from
  ReadyAfter-poll_from zero k h = cc
  ReadyAfter-poll_from (suc fuel) k h = elim (Verdict-cases (round_verdict deadline (polls k))) [
    | inl v ↦ (0, Confirms-round_verdict deadline (polls k) v)
    | inr (inr (e, v)) ↦ (let bad = rw v at h in cc)
    | inr (inl v) ↦
        let (n, later) = ReadyAfter-poll_from fuel (suc k) (rw v at h) in
        (suc n, (GoesOn-round_verdict deadline (polls k) v, later))
  ]

-- When each wait takes the poll interval or longer, waitReady ends; and it reports the mount ready
-- exactly when some round finds the mount listed or the device boundary, with the context alive,
-- and all rounds before it ran before the deadline and were not cancelled.
pub wait_ready-ReadyAfter :
    (polls : ℕ → Poll) (start timeout : ℕ) (dest : Text)
    → start ≤ (polls 0).now
    → ((k : ℕ) → (polls k).now + poll_interval ≤ (polls (suc k)).now)
    → (e : Option GoError) × (wait_ready true polls start timeout dest ≡ some e)
      × ((e ≡ none) ↔ ((n : ℕ) × ReadyAfter polls (start + timeout) n 0))
unfolding wait_ready
wait_ready-ReadyAfter polls start timeout dest starts advances =
    let (e, ends) =
      poll_from_total polls (start + timeout) dest (suc (timeout / 100)) 0 advances (omega arith) in
    (
      e,
      ends,
      (
        (λ nil.
            ReadyAfter-poll_from polls (start + timeout) dest (rounds timeout) 0 (rw nil at ends)),
        (λ r. elim (poll_from-ReadyAfter polls (start + timeout) dest r.0 (rounds timeout) 0 r.1) [
          | inl out ↦ absurd (some_ne_none (sym ends ∙ out))
          | inr ok ↦ some_injective (sym ends ∙ ok)
        ]),
      ),
    )
  where
    some_ne_none : {e : Option GoError} → some e ≡ none → ⊥
    some_ne_none bad = cc

    some_injective : {d e : Option GoError} → some d ≡ some e → d ≡ e
    some_injective same = cc
