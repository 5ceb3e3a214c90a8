-- ===== src/UsbFlash/Exchange.antt =====
-- What `transact` of source/MicroBitUSBFlashManager.cpp gives, whatever the bus does.
use codal_microbit_v2_fft.Base.{
  ℕ, zero, suc, ◌+◌, ◌≤◌, ◌≡◌, ◌⊎◌, refl, inl, inr, arith, false, List, [], get_or, ◌==◌,
  Option-cases, if-both,
}
use codal_microbit_v2_fft.UsbFlash.{
  Bus, Manager, Phase, writing, waiting, poll, transact_loop, transact, max_retries,
}

module _ (bus : Bus) where
  open bus use {State, send, active, receive}

  -- No response, or one that begins with the byte given.
  abbrev pub Answers : ℕ → List ℕ × State → Type 0
  Answers first (response, s) = (response ≡ []) ⊎ (get_or response 0 0 ≡ first)

  poll-Answers :
      (resend wait : State → List ℕ × State) (s : State) (first len : ℕ)
      → ((t : State) → Answers first (resend t))
      → ((t : State) → Answers first (wait t))
      → Answers first (poll bus resend wait s first len)
  unfolding poll
  poll-Answers resend wait s first len hr hw =
      let (response, s2) = receive (active s).1 len in
      if-both (Answers first) (active s).0
        (λ _. elim (Option-cases response) [
          | inl e ↦ rw e (hr s2)
          | inr (b, e) ↦ rw e (
              if-both (Answers first) (get_or b 0 0 == first) (λ h. inr (ground arith))
                (λ _. hr s2))
        ])
        (λ _. hw (active s).1)

  transact_loop-Answers :
      (left : ℕ) (phase : Phase) (s : State) (request : List ℕ) (len : ℕ)
      → Answers (get_or request 0 0) (transact_loop bus left phase s request len)
  unfolding transact_loop
  transact_loop-Answers zero phase s request len = inl refl
  transact_loop-Answers (suc left) writing s request len =
      let resend = λ (t : State). transact_loop-Answers left writing t request len in
      if-both (Answers (get_or request 0 0)) (send s request).0
        (λ _.
          poll-Answers _ _ (send s request).1 (get_or request 0 0) len resend
            (λ t. transact_loop-Answers left waiting t request len))
        (λ _. resend (send s request).1)
  transact_loop-Answers (suc left) waiting s request len =
      poll-Answers _ _ s (get_or request 0 0) len
        (λ t. transact_loop-Answers left writing t request len)
        (λ t. transact_loop-Answers left waiting t request len)

  -- A count of requests sent: a write adds at most one, looking at the line and reading add none.
  pub record Counter (sent : State → ℕ) : Type 0 where
    pub send_one : (s : State) (r : List ℕ) → sent (send s r).1 ≤ suc (sent s)
    pub active_none : (s : State) → sent (active s).1 ≤ sent s
    pub receive_none : (s : State) (n : ℕ) → sent (receive s n).1 ≤ sent s

  module _ (sent : State → ℕ) (counter : Counter sent) where
    poll_bound :
        (resend wait : State → List ℕ × State) (s : State) (first len left : ℕ)
        → ((t : State) → sent (resend t).1 ≤ sent t + left)
        → ((t : State) → sent (wait t).1 ≤ sent t + left)
        → sent (poll bus resend wait s first len).1 ≤ sent s + left
    unfolding poll
    poll_bound resend wait s first len left hr hw =
        let Bounded : List ℕ × State → Type 0 = λ o. sent o.1 ≤ sent s + left in
        let (response, s2) = receive (active s).1 len in
        let a = counter.active_none s in
        let r = counter.receive_none (active s).1 len in
        let again : Bounded (resend s2) = let h = hr s2 in omega arith in
        if-both Bounded (active s).0
          (λ _. elim (Option-cases response) [
            | inl e ↦ rw e again
            | inr (b, e) ↦
                rw e (if-both Bounded (get_or b 0 0 == first) (λ _. omega arith) (λ _. again))
          ])
          (λ _. let h = hw (active s).1 in omega arith)

    transact_loop_bound :
        (left : ℕ) (phase : Phase) (s : State) (request : List ℕ) (len : ℕ)
        → sent (transact_loop bus left phase s request len).1 ≤ sent s + left
    unfolding transact_loop
    transact_loop_bound zero phase s request len = omega arith
    transact_loop_bound (suc left) writing s request len =
        let Bounded : List ℕ × State → Type 0 = λ o. sent o.1 ≤ sent s + suc left in
        let s1 = (send s request).1 in
        let one = counter.send_one s request in
        let resend = λ (t : State). transact_loop bus left writing t request len in
        let wait = λ (t : State). transact_loop bus left waiting t request len in
        let resend_bound = λ (t : State). transact_loop_bound left writing t request len in
        let wait_bound = λ (t : State). transact_loop_bound left waiting t request len in
        let first = get_or request 0 0 in
        if-both Bounded (send s request).0
          (λ _.
            let h = poll_bound resend wait s1 first len left resend_bound wait_bound in
            omega (arith, h, one))
          (λ _. let h = resend_bound s1 in omega (arith, h, one))
    transact_loop_bound (suc left) waiting s request len =
        let resend = λ (t : State). transact_loop bus left writing t request len in
        let wait = λ (t : State). transact_loop bus left waiting t request len in
        let h =
          poll_bound resend wait s (get_or request 0 0) len left
            (λ t. transact_loop_bound left writing t request len)
            (λ t. transact_loop_bound left waiting t request len) in
        omega (arith, h)

    -- Whatever the bus does, and by any count of the requests sent: `transact` ends and sends its
    -- request at most 20 times; it gives no bytes, or a response that begins with the command of the
    -- request; then no packet is awaited, and geometry and configuration are as before.
    pub transact-Answers :
        (m : Manager State) (request : List ℕ) (len : ℕ)
        → let (response, m') = transact bus m request len in
          (sent m'.outside ≤ sent m.outside + max_retries)
          × ((response ≡ []) ⊎ (get_or response 0 0 ≡ get_or request 0 0))
          × (m' ≡ record m { outside = m'.outside; awaiting = false })
    unfolding transact
    transact-Answers m request len = (
      transact_loop_bound max_retries writing m.outside request len,
      transact_loop-Answers max_retries writing m.outside request len,
      refl,
    )
