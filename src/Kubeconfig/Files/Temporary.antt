-- ===== src/Kubeconfig/Files/Temporary.antt =====
-- Temporary kubeconfig files, the bytes that are saved, and the polls for a secret.
use airshipctl.Base.{
  ℕ, zero, suc, ◌<◌, String, ◌==◌, none, some, Outcome-cases, Bool-cases, ok, err, ◌≡◌, ◌≢◌, ◌↔◌,
  ◌⊎◌, inl, inr, ap, ◌∙◌, arith, eq_iff,
}
use airshipctl.Kubeconfig.Merging.{ClientCmd, KubeError}
use airshipctl.Kubeconfig.Files.{
  Access, KubeConfig, Saved, Cleanup, bytes, write_temp_file, get_file, run_cleanup, poll_secret,
}

module _ (C : ClientCmd) (A : Access C) where
  -- Bytes that were got once, and are not empty, are given again with no call of the source.
  pub bytes_saved :
      (k : KubeConfig C A) (s s' : Saved C A) (text : String)
      → text ≢ ""
      → bytes C A k s ≡ (ok text, s')
      → bytes C A k s' ≡ (ok text, s')
  unfolding bytes
  bytes_saved k s s' text n h = elim (Bool-cases (s.saved_bytes == "")) [
    | inr e ↦ ground arith
    | inl e ↦ elim (Outcome-cases (k.source s.world).0) [
      | inl (t, f) ↦ ground (arith, eq_iff text "", eq_iff t "")
      | inr (inl (x, f)) ↦ absurd (ground arith)
      | inr (inr (c, f)) ↦ absurd (ground arith)
    ]
  ]

  -- A kubeconfig with a path of its own is that file, and nothing is written or removed; any other is
  -- written to a new file, which the cleanup removes.
  pub get_file-eq-ok :
      (k : KubeConfig C A) (s s' : Saved C A) (path : String) (cleanup : Cleanup)
      → get_file C A k s ≡ (ok (path, cleanup), s')
      → ((k.path ≢ "") × (path ≡ k.path) × (cleanup ≡ none) × (s' ≡ s))
        ⊎ ((k.path ≡ "")
            × (cleanup ≡ some path)
            × ((text : String) × (s₁ : Saved C A) × (bytes C A k s ≡ (ok text, s₁))
                × ((A.temp_file k.dump_root "kubeconfig-" s₁.world).0 ≡ ok path)
                × ((A.write_temp path text (A.temp_file k.dump_root "kubeconfig-" s₁.world).1).0
                    ≡ ok tt)))
  unfolding get_file write_temp_file
  get_file-eq-ok k s s' path cleanup h = elim (Bool-cases (k.path == "")) [
    | inr e ↦ inl (ground (arith, eq_iff k.path ""), ground arith, ground arith, ground arith)
    | inl e ↦ elim (Outcome-cases (bytes C A k s).0) [
      | inr (inl (x, f)) ↦ absurd (ground arith)
      | inr (inr (c, f)) ↦ absurd (ground arith)
      | inl (text, f) ↦
          let s₁ = (bytes C A k s).1 in
          let temp = A.temp_file k.dump_root "kubeconfig-" s₁.world in
          elim (Outcome-cases temp.0) [
            | inr (inl (x, g)) ↦ absurd (ground arith)
            | inr (inr (c, g)) ↦ absurd (ground arith)
            | inl (path', g) ↦ elim (Outcome-cases (A.write_temp path' text temp.1).0) [
              | inr (inl (x, i)) ↦
                  elim (Outcome-cases
                    (run_cleanup C A (some path') (A.write_temp path' text temp.1).1).0) [
                      | inl (u, j) ↦ absurd (ground arith)
                      | inr (inl (y, j)) ↦ absurd (ground arith)
                      | inr (inr (c, j)) ↦ absurd (ground arith)
                    ]
              | inr (inr (c, i)) ↦ absurd (ground arith)
              | inl (u, i) ↦
                  let same : path' ≡ path = ground arith in
                  inr (
                    ground (arith, eq_iff k.path ""),
                    ground arith,
                    (text, s₁, ground arith, g ∙ ap ok same, rw (← same) i),
                  )
            ]
          ]
    ]
  ]

  module _ (name namespace secret : String) (c : A.Client) where
    -- The world after so many polls that could not read the secret.
    abbrev pub polled_for : ℕ → A.World → A.World
    polled_for zero w = w
    polled_for (suc j) w = polled_for j (A.wait_a_second (A.secret_value c namespace secret w).1)

    abbrev pub Unread : A.World → Type 0
    Unread w = (e : KubeError) × ((A.secret_value c namespace secret w).0 ≡ err e)

    Unread-before :
        (j : ℕ) (w : A.World)
        → Unread w
        → ((i : ℕ)
            → i < j
            → Unread (polled_for i (A.wait_a_second (A.secret_value c namespace secret w).1)))
        → (i : ℕ) → i < suc j
        → Unread (polled_for i w)
    Unread-before j w u more zero l = u
    Unread-before j w u more (suc i) l = more i (omega arith)

    -- The poll that reads the secret, after those that could not.
    abbrev pub ReadAt : ℕ → A.World → String → Type 0
    ReadAt n w text =
        (j : ℕ) × (j < n)
        × ((i : ℕ) → i < j → Unread (polled_for i w))
        × ((A.secret_value c namespace secret (polled_for j w)).0 ≡ ok (some text))
        × (text ≢ "")

    poll_secret-ReadAt :
        (n : ℕ) (w : A.World) (text : String)
        → (poll_secret C A n name namespace secret c w).0 ≡ ok text
        → ReadAt n w text
    unfolding poll_secret
    poll_secret-ReadAt zero w text h = cc
    poll_secret-ReadAt (suc n) w text h =
        elim (Outcome-cases (A.secret_value c namespace secret w).0) [
          | inl (none, e) ↦ absurd (ground arith)
          | inl (some t, e) ↦ elim (Bool-cases (t == "")) [
            | inl q ↦ absurd (ground arith)
            | inr q ↦
                let same : t ≡ text = ground arith in
                (
                  0,
                  omega arith,
                  λ i l. absurd (omega arith),
                  ground arith,
                  ground (arith, eq_iff t ""),
                )
          ]
          | inr (inl (x, e)) ↦
              let w₁ = A.wait_a_second (A.secret_value c namespace secret w).1 in
              let (j, l, before, hit, ne) = poll_secret-ReadAt n w₁ text (ground arith) in
              (suc j, omega arith, Unread-before j w (x, e) before, hit, ne)
          | inr (inr (k, e)) ↦ absurd (ground arith)
        ]

    ReadAt-poll_secret :
        (n j : ℕ) (w : A.World) (text : String)
        → j < n
        → ((i : ℕ) → i < j → Unread (polled_for i w))
        → (A.secret_value c namespace secret (polled_for j w)).0 ≡ ok (some text)
        → text ≢ ""
        → (poll_secret C A n name namespace secret c w).0 ≡ ok text
    unfolding poll_secret
    ReadAt-poll_secret zero j w text l before hit ne = absurd (omega arith)
    ReadAt-poll_secret (suc n) zero w text l before hit ne = ground (arith, eq_iff text "")
    ReadAt-poll_secret (suc n) (suc j) w text l before hit ne =
        let w₁ = A.wait_a_second (A.secret_value c namespace secret w).1 in
        let (x, e) = before 0 (omega arith) in
        let later =
          ReadAt-poll_secret n j w₁ text (omega arith) (λ i q. before (suc i) (omega arith)) hit
            ne in
        ground (arith, later)

    -- The wait for a secret gives a value exactly if, after polls that could not read the secret, one
    -- within the limit reads it with this value, which is not empty.
    pub poll_secret-eq-ok :
        (n : ℕ) (w : A.World) (text : String)
        → ((poll_secret C A n name namespace secret c w).0 ≡ ok text) ↔ ReadAt n w text
    poll_secret-eq-ok n w text = (
      poll_secret-ReadAt n w text,
      λ (j, l, before, hit, ne). ReadAt-poll_secret n j w text l before hit ne,
    )
