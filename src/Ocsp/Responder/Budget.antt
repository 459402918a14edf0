-- ===== src/Ocsp/Responder/Budget.antt =====
-- The budget `-nrequest`.
use wolf_clu.Base.{
  refl, zero, suc, ℕ, suc, ◌+◌, ◌≤◌, ◌<◌, Bool, true, false, ◌&&◌, ◌||◌, if◌then◌else◌, List, [],
  ◌∷◌, Option, ◌≡◌, arith, ◌⊎◌, inl, inr, Bool-cases,
}
use wolf_clu.Text.{Bytes}
use wolf_clu.Ocsp.Transport.{Transport}
use wolf_clu.Ocsp.Responder.{
  Written, OcspStatus, Reply, Round, Session, serve_round, at_limit, serve, count_up, close_round,
}
use wolf_clu.Ocsp.Responder.Answers.{serve_round-Answers}

-- the rounds that were answered with success
abbrev pub count : List Reply → ℕ
count [] = 0
count (reply ∷ replies) = if reply.counted then suc (count replies) else count replies

-- The session from a counter on that has not reached the limit.
abbrev Counts : ℕ → ℕ → Session → Type 0
Counts nrequest processed session =
    (session.processed ≡ processed + count session.replies)
    × (0 < nrequest → session.processed ≤ nrequest)
    × (0 < nrequest → session.stopped ≡ false → session.processed < nrequest)

close_round-Counts :
    (nrequest : ℕ) (shutdown : Bool) (processed : ℕ) (reply : Reply) (more : Session)
    → (0 < nrequest → processed < nrequest)
    → (reply.counted ≡ true → reply.sent ≡ true)
    → ((0 < nrequest → count_up reply processed < nrequest)
        → Counts nrequest (count_up reply processed) more)
    → Counts nrequest processed (close_round nrequest shutdown processed reply more)
unfolding close_round at_limit count_up
close_round-Counts nrequest shutdown processed reply more h sent ih =
    elim (Bool-cases (shutdown || at_limit nrequest processed)) [
      | inl stop ↦ rw stop (omega arith, λ p. omega (arith, h p), λ _ bad. cc)
      | inr go ↦ elim (Bool-cases (reply.sent && at_limit nrequest (count_up reply processed))) [
        | inl last ↦ rw (go, last) (ground arith, λ p. ground (arith, h p), λ _ bad. cc)
        | inr next ↦
            let room : 0 < nrequest → count_up reply processed < nrequest =
              λ p. room_left p (h p) next (Bool-cases reply.counted) in
            let (total, most, waits) = ih room in rw (go, next) (ground (arith, total), most, waits)
      ]
    ]
  where
    room_left :
        0 < nrequest
        → processed < nrequest
        → (reply.sent && at_limit nrequest (count_up reply processed)) ≡ false
        → (reply.counted ≡ true) ⊎ (reply.counted ≡ false)
        → count_up reply processed < nrequest
    room_left p q next (inl c) = let s = sent c in ground (arith, s, c, next)
    room_left p q next (inr c) = ground (arith, c)

abbrev pub WithinBudget : ℕ → Session → Type 0
WithinBudget nrequest session =
    (session.processed ≡ count session.replies)
    × ((nrequest ≡ 0) ⊎ (session.processed ≤ nrequest))
    × ((nrequest ≡ 0) ⊎ ((session.stopped ≡ true) ⊎ (session.processed < nrequest)))

WithinBudget-Counts :
    (nrequest : ℕ) (session : Session) → Counts nrequest 0 session → WithinBudget nrequest session
WithinBudget-Counts zero session (total, most, waits) = (omega (arith, total), inl refl, inl refl)
WithinBudget-Counts (suc n) session (total, most, waits) =
    (omega (arith, total), inr (most (omega arith)), inr (go (Bool-cases session.stopped)))
  where
    go :
        (session.stopped ≡ true) ⊎ (session.stopped ≡ false)
        → (session.stopped ≡ true) ⊎ (session.processed < suc n)
    go (inl stopped) = inl stopped
    go (inr open_) = inr (waits (omega arith) open_)

module _ {ℓ} {R : Type ℓ} (write_response : R → Bytes → R × Written)
    (write_error_response : OcspStatus → Option Bytes) (transport : Transport) where
  serve-Counts :
      (nrequest : ℕ) (rounds : List Round) (r : R) (processed : ℕ)
      → (0 < nrequest → processed < nrequest)
      → Counts nrequest processed
          (serve write_response write_error_response transport nrequest rounds r processed)
  unfolding serve
  serve-Counts nrequest [] r processed h = (omega arith, λ p. omega (arith, h p), λ p _. h p)
  serve-Counts nrequest (round ∷ rounds) r processed h =
      let step = serve_round write_response write_error_response transport r round.accepted in
      close_round-Counts nrequest round.shutdown processed step.1 _ h
        (λ c.
          (serve_round-Answers write_response write_error_response transport r round.accepted c).1)
        (serve-Counts nrequest rounds step.0 (count_up step.1 processed))

  -- Whatever the clients send: the counter is the number of rounds that were counted, with a
  -- positive `-nrequest` it is at most that, and then the loop waits for another client only while
  -- it is less.
  pub serve-WithinBudget :
      (nrequest : ℕ) (rounds : List Round) (r : R)
      → WithinBudget nrequest
          (serve write_response write_error_response transport nrequest rounds r 0)
  serve-WithinBudget nrequest rounds r =
      WithinBudget-Counts nrequest
        (serve write_response write_error_response transport nrequest rounds r 0)
        (serve-Counts nrequest rounds r 0 (λ p. p))
