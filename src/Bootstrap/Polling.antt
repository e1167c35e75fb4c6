-- ===== src/Bootstrap/Polling.antt =====
-- The wait for the bootstrap container: when it ends well, and how long it can take.
use airshipctl.Base.{
  ℕ, zero, suc, ◌+◌, ◌*◌, ◌≤◌, ◌<◌, String, true, false, Outcome-cases, ℤ, pos, negsuc, ok, ◌≡◌,
  ◌≢◌, ◌⊎◌, inl, inr, refl, arith,
}
use airshipctl.Containers.Types.{Container, State, GetLogOptions}
use airshipctl.Bootstrap.{
  Outside, Reply, get_container_status, status_of, wait_attempts,
  wait_until_container_exits_or_timesout,
}

ℤ-cases : (z : ℤ) → (z ≡ pos zero) ⊎ ((n : ℕ) × (z ≡ negsuc n)) ⊎ ((n : ℕ) × (z ≡ pos (suc n)))
ℤ-cases (pos zero) = inl refl
ℤ-cases (pos (suc n)) = inr (inr (n, refl))
ℤ-cases (negsuc n) = inr (inl (n, refl))

module _ (O : Outside) (box : Container O.World) where
  open O use {World}

  -- One check of the status of the container.
  abbrev pub check : World → Reply String × World
  check = get_container_status O box

  -- The world after so many checks and the pauses of 15 seconds before them.
  abbrev pub checked : ℕ → World → World
  checked zero w = w
  checked (suc j) w = checked j (check (O.sleep 15 w)).1

  abbrev pub Running : World → Type 0
  Running w = (status : String) × ((check w).0 ≡ ok status) × (status ≢ "exited")

  abbrev pub Exited : World → Type 0
  Exited w = (check w).0 ≡ ok "exited"

  -- Some check within the attempts finds the container exited, those before it found it running.
  abbrev pub Ends : ℕ → World → World → Type 0
  Ends n w w' =
      (j : ℕ) × (j < n)
      × ((i : ℕ) → i < j → Running (O.sleep 15 (checked i w)))
      × Exited (O.sleep 15 (checked j w))
      × (w' ≡ checked (suc j) w)

  checked-suc : (j : ℕ) (w : World) → checked (suc j) w ≡ (check (O.sleep 15 (checked j w))).1
  checked-suc zero w = refl
  checked-suc (suc j) w = checked-suc j (check (O.sleep 15 w)).1

  -- What has been slept in all: each pause adds its seconds, and the calls of the container add none.
  pub record CountsSleep (slept : World → ℕ) : Type 0 where
    pub sleep-adds : (n : ℕ) (w : World) → slept (O.sleep n w) ≡ slept w + n
    pub inspect-keeps : (w : World) → slept (box.inspect_container w).1 ≡ slept w
    pub logs-keep : (o : GetLogOptions) (w : World) → slept (box.get_container_logs o w).1 ≡ slept w

  module _ (slept : World → ℕ) (counts : CountsSleep slept) where
    status_of-slept : (s : State) (w : World) → slept (status_of O box s w).1 ≡ slept w
    unfolding status_of
    status_of-slept s w = elim (ℤ-cases s.exit_code) [
      | inl e ↦ ground arith
      | inr (inl (n, e)) ↦ ground arith
      | inr (inr (n, e)) ↦
          let o : GetLogOptions = record { stderr = true; stdout = false; follow = true } in
          let same = counts.logs-keep o w in
          elim (Outcome-cases (box.get_container_logs o w).0) [
            | inl (logs, f) ↦ ground arith
            | inr (inl (x, f)) ↦ ground arith
            | inr (inr (k, f)) ↦ ground arith
          ]
    ]

    check-slept : (w : World) → slept (check w).1 ≡ slept w
    unfolding get_container_status
    check-slept w =
        let inspected = counts.inspect-keeps w in
        elim (Outcome-cases (box.inspect_container w).0) [
          | inr (inl (x, e)) ↦ ground arith
          | inr (inr (k, e)) ↦ ground arith
          | inl (state, e) ↦
              let same = status_of-slept state (box.inspect_container w).1 in ground arith
        ]

    wait_attempts-slept : (n : ℕ) (w : World) → slept (wait_attempts O box n w).1 ≤ slept w + 15 * n
    unfolding wait_attempts
    wait_attempts-slept zero w = omega arith
    wait_attempts-slept (suc n) w =
        let w₁ = O.sleep 15 w in
        let pause = counts.sleep-adds 15 w in
        let same = check-slept w₁ in
        let later = wait_attempts-slept n (check w₁).1 in
        elim (Outcome-cases (check w₁).0) [
          | inr (inl (x, e)) ↦ ground arith
          | inr (inr (k, e)) ↦ ground arith
          | inl (status, e) ↦ ground arith
        ]

    -- However the wait ends, it has slept at most two seconds and fifteen more for each retry.
    pub wait_until-slept :
        (n : ℕ) (w : World)
        → slept (wait_until_container_exits_or_timesout O box n w).1 ≤ slept w + 2 + 15 * n
    unfolding wait_until_container_exits_or_timesout
    wait_until-slept n w =
        let w₁ = O.sleep 2 w in
        let pause = counts.sleep-adds 2 w in
        let same = check-slept w₁ in
        let later = wait_attempts-slept n (check w₁).1 in
        elim (Outcome-cases (check w₁).0) [
          | inr (inl (x, e)) ↦ ground arith
          | inr (inr (k, e)) ↦ ground arith
          | inl (status, e) ↦ ground arith
        ]
