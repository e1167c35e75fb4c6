-- ===== src/Redfish/Client/Waiting.antt =====
-- The polling loop of waitForPowerState as a bounded search.
use airshipctl.Base.{
  ℕ, zero, suc, ◌<◌, true, false, ok, err, Outcome-cases, Bool-cases, ◌≡◌, refl, ap, subst, ◌∙◌,
  ◌↔◌, rounds_through, inl, inr, arith, ◌<>◌,
}
use airshipctl.Redfish.Types.{System, PowerState, Ctx, Client, Reply, operation_retries_exceeded}
use airshipctl.Redfish.Api.{Api}
use airshipctl.Redfish.Client.{screened, has_state, state_text, wait_rounds, wait_for_power_state}

module _ (A : Api) (c : Client) (ctx : Ctx) (desired : PowerState) where
  open A use {World}

  -- One poll, its answer, and the world after it and after the pause that follows a miss.
  abbrev pub poll : World → Reply System × World
  poll = screened A c (A.get_system ctx c.node_id)

  abbrev pub polled : ℕ → World → World
  polled zero w = w
  polled (suc k) w = polled k (A.sleep c.system_reboot_delay (poll w).1)

  -- The poll is answered, and the node is, or is not, in the wanted state.
  abbrev pub Hits : World → Type 0
  Hits w = (s : System) × ((poll w).0 ≡ ok s) × (has_state desired s ≡ true)

  abbrev pub Misses : World → Type 0
  Misses w = (s : System) × ((poll w).0 ≡ ok s) × (has_state desired s ≡ false)

  step_miss :
      (n : ℕ) (w : World) (s : System)
      → (poll w).0 ≡ ok s
      → has_state desired s ≡ false
      → wait_rounds A c ctx desired (suc n) w
        ≡ wait_rounds A c ctx desired n (A.sleep c.system_reboot_delay (poll w).1)
  unfolding wait_rounds
  step_miss n w s p q = ground arith

  -- If the polls before the k-th miss and it hits, within the rounds, the loop ends there without an
  -- error.
  pub wait_rounds_hit :
      (n k : ℕ) (w : World)
      → k < n
      → ((j : ℕ) → j < k → Misses (polled j w))
      → Hits (polled k w)
      → wait_rounds A c ctx desired n w ≡ (ok tt, (poll (polled k w)).1)
  unfolding wait_rounds
  wait_rounds_hit zero k w h m (s, p, q) = absurd (omega arith)
  wait_rounds_hit (suc n) zero w h m (s, p, q) = ground arith
  wait_rounds_hit (suc n) (suc k) w h m hit =
      let w₁ = A.sleep c.system_reboot_delay (poll w).1 in
      let (s, p, q) = m 0 (omega arith) in
      ground (arith, wait_rounds_hit n k w₁ (omega arith) (λ j l. m (suc j) (omega arith)) hit)

  -- If every poll misses, it ends with the error of exceeded retries.
  pub wait_rounds_miss :
      (n : ℕ) (w : World)
      → ((j : ℕ) → j < n → Misses (polled j w))
      → wait_rounds A c ctx desired n w ≡ (
        err (
            operation_retries_exceeded
              ("reach desired power state " <> state_text desired)
              c.system_action_retries),
        polled n w,
      )
  unfolding wait_rounds
  wait_rounds_miss zero w m = refl
  wait_rounds_miss (suc n) w m =
      let w₁ = A.sleep c.system_reboot_delay (poll w).1 in
      let (s, p, q) = m 0 (omega arith) in
      ground (arith, wait_rounds_miss n w₁ (λ j l. m (suc j) (omega arith)))

  -- Some poll within the rounds hits, those before it miss, and the world is the one after it.
  abbrev pub Found : ℕ → World → World → Type 0
  Found n w w' =
      (k : ℕ) × (k < n)
      × ((j : ℕ) → j < k → Misses (polled j w))
      × Hits (polled k w)
      × (w' ≡ (poll (polled k w)).1)

  Misses-before :
      (k : ℕ) (w : World)
      → Misses w
      → ((j : ℕ) → j < k → Misses (polled j (A.sleep c.system_reboot_delay (poll w).1)))
      → (j : ℕ) → j < suc k
      → Misses (polled j w)
  Misses-before k w m more zero l = m
  Misses-before k w m more (suc j) l = more j (omega arith)

  Found-later :
      (n : ℕ) (w w' : World)
      → Misses w
      → Found n (A.sleep c.system_reboot_delay (poll w).1) w'
      → Found (suc n) w w'
  Found-later n w w' m (k, l, more, hit, e) = (suc k, omega arith, Misses-before k w m more, hit, e)

  pub wait_rounds-Found :
      (n : ℕ) (w : World)
      → (wait_rounds A c ctx desired n w).0 ≡ ok tt
      → Found n w (wait_rounds A c ctx desired n w).1
  wait_rounds-Found zero w h = unfold wait_rounds in cc
  wait_rounds-Found (suc n) w h = elim (Outcome-cases (poll w).0) [
    | inr (inl (e, p)) ↦ absurd (unfold wait_rounds in ground arith)
    | inr (inr (k, p)) ↦ absurd (unfold wait_rounds in ground arith)
    | inl (s, p) ↦ elim (Bool-cases (has_state desired s)) [
      | inl q ↦ (
        0,
        omega arith,
        λ j l. absurd (omega arith),
        (s, p, q),
        unfold wait_rounds in ground arith,
      )
      | inr q ↦
          let w₁ = A.sleep c.system_reboot_delay (poll w).1 in
          let same = step_miss n w s p q in
          rw same (
            Found-later n w (wait_rounds A c ctx desired n w₁).1 (s, p, q)
              (wait_rounds-Found n w₁ (rw same at h)))
    ]
  ]

  -- waitForPowerState ends without an error exactly if one of its polls, at most one more than the
  -- retries and none for negative retries, is answered and shows the wanted state after polls that
  -- were all answered and did not; and it ends right after that poll.
  pub wait_for_power_state-eq-ok :
      (w w' : World)
      → (wait_for_power_state A c ctx desired w ≡ (ok tt, w'))
        ↔ Found (rounds_through c.system_action_retries) w w'
  unfolding wait_for_power_state
  wait_for_power_state-eq-ok w w' =
      let n = rounds_through c.system_action_retries in
      (
        λ e. subst (λ w'. Found n w w') (ap (λ r. r.1) e) (wait_rounds-Found n w (ap (λ r. r.0) e)),
        λ (k, l, m, hit, e). wait_rounds_hit n k w l m hit ∙ rw (← e),
      )
