-- ===== src/Requester/Attempts.antt =====
-- How a request over Redis ends (mautrix_asmux/api/as_requester.py).
use mautrix_asmux.Prelude.{
  ℕ, zero, suc, ◌+◌, ◌≤◌, ◌<◌, ◌≡◌, ◌⊎◌, inl, inr, refl, Option, none, some, leb, arith, Bool-cases,
  Option-cases,
}
use mautrix_asmux.Requester.{
  Answer, replied, request_timed_out, max_attempts, publish_loop, handle_request_over_redis,
}

module _ {A : Type 0} (replies : ℕ → Option A) where
  -- The attempts from `first` up to `last`, and not it, have no reply.
  abbrev pub IsSilent : ℕ → ℕ → Type 0
  IsSilent first last = (j : ℕ) → first ≤ j → j < last → replies j ≡ none

  -- A reply came to one of the attempts.
  pub record Replied (first : ℕ) (r : Option (Answer A × ℕ)) : Type 0 where
    pub attempt : ℕ
    pub value : A
    pub low : first ≤ attempt
    pub high : attempt ≤ max_attempts
    pub earlier : IsSilent first attempt
    pub reply : replies attempt ≡ some value
    pub result : r ≡ some (replied value, attempt)

  later-Replied :
      (first : ℕ) (r : Option (Answer A × ℕ))
      → replies first ≡ none
      → Replied (first + 1) r
      → Replied first r
  later-Replied first r silent h = record {
    attempt = h.attempt;
    value = h.value;
    low = omega (arith, h.low);
    high = h.high;
    earlier = λ j low high. ground (arith, silent, h.earlier j);
    reply = h.reply;
    result = h.result;
  }

  publish_loop_ends :
      (fuel first : ℕ)
      → first + fuel ≡ 6
      → 1 ≤ fuel
      → Replied first (publish_loop replies fuel first)
        ⊎ (IsSilent first 6
            × (publish_loop replies fuel first ≡ some (request_timed_out, max_attempts)))
  unfolding publish_loop
  publish_loop_ends zero first sum pos = absurd (omega arith)
  publish_loop_ends (suc fuel) first sum pos = elim (Option-cases (replies first)) [
    | inr (a, there) ↦ inl (record {
      attempt = first;
      value = a;
      low = omega arith;
      high = omega arith;
      earlier = λ j low high. absurd (omega arith);
      reply = there;
      result = ground (arith, there);
    })
    | inl silent ↦ elim (Bool-cases (leb max_attempts first)) [
      | inl last ↦ inr (λ j low high. ground (arith, silent), ground (arith, silent, last))
      | inr more ↦
          rw (silent, more, publish_loop)
            (elim (publish_loop_ends fuel (first + 1) (omega arith) (ground arith)) [
              | inl h ↦ inl (later-Replied first _ silent h)
              | inr (rest, r) ↦ inr (λ j low high. ground (arith, silent, rest j), r)
            ])
    ]
  ]

  -- A request over Redis always ends: with the first reply that comes to one of its five attempts,
  -- and then no more is published, or, where none has a reply, with `RequestTimedOut` behind the
  -- fifth.
  pub handle_request_ends :
      Replied 1 (handle_request_over_redis replies)
      ⊎ (IsSilent 1 6
          × (handle_request_over_redis replies ≡ some (request_timed_out, max_attempts)))
  unfolding handle_request_over_redis
  handle_request_ends = publish_loop_ends max_attempts 1 refl (omega arith)

  -- The reply to the first attempt that has one is what is returned.
  pub first_reply :
      (k : ℕ) (a : A)
      → 1 ≤ k
      → k ≤ max_attempts
      → IsSilent 1 k
      → replies k ≡ some a
      → handle_request_over_redis replies ≡ some (replied a, k)
  first_reply k a low high silent reply = elim handle_request_ends [
    | inr (none_at_all, _) ↦ absurd (ground (arith, none_at_all k low (omega arith)))
    | inl h ↦
        let early : h.attempt < k → ⊥ = λ lt. ground (arith, silent h.attempt h.low lt, h.reply) in
        let late : k < h.attempt → ⊥ = λ lt. ground (arith, h.earlier k low lt) in
        let same : h.attempt ≡ k = omega (arith, early, late) in ground (arith, h.result, h.reply)
  ]
