-- ===== src/Totp/Window.antt =====
-- `totpVerify` of server/totp.go: which codes are accepted.
use mathlib.Core.Option.{some-injective}
use hexeris_beta.Base.{
  ℕ, zero, suc, ◌+◌, ◌-◌, ◌≤◌, ◌<◌, ◌≡◌, ◌≢◌, String, none, some, false, List, arith, length, ◌==◌,
  Bool-cases, Option-cases, inl, inr, ap, ◌∙◌, sym, subst,
}
use hexeris_beta.Totp.{
  Hotp, totp_step, normalise, same_bytes, totp_code_at, try_steps, verify_code, totp_verify,
}
use hexeris_beta.Totp.Codes.{
  eq_of-same_bytes, same_bytes_refl, normalise-digits, totp_code_at-cases,
}

module _ (h : Hotp) where
  -- One round of the loop.
  try_steps_hit :
      (rounds : ℕ) (secret : String) (code : List ℕ) (step : ℕ)
      → totp_code_at h secret step ≡ some code
      → try_steps h (suc rounds) secret code step ≡ some step
  unfolding try_steps
  try_steps_hit rounds secret code step e = ground (arith, same_bytes_refl code)

  try_steps-none :
      (rounds : ℕ) (secret : String) (code : List ℕ) (step : ℕ)
      → totp_code_at h secret step ≡ none
      → try_steps h (suc rounds) secret code step ≡ none
  unfolding try_steps
  try_steps-none rounds secret code step e = ground arith

  try_steps_miss :
      (rounds : ℕ) (secret : String) (code want : List ℕ) (step : ℕ)
      → totp_code_at h secret step ≡ some want
      → same_bytes want code ≡ false
      → try_steps h (suc rounds) secret code step ≡ try_steps h rounds secret code (step + 1)
  unfolding try_steps
  try_steps_miss rounds secret code want step e m = ground arith

  abbrev Accepted : String → List ℕ → ℕ → ℕ → ℕ → Type 0
  Accepted secret code step rounds s =
      (step ≤ s) × (s < step + rounds) × (totp_code_at h secret s ≡ some code)

  try_steps_sound :
      (rounds : ℕ) (secret : String) (code : List ℕ) (step s : ℕ)
      → try_steps h rounds secret code step ≡ some s
      → Accepted secret code step rounds s
  try_steps_sound zero secret code step s e = unfold try_steps in cc e
  try_steps_sound (suc rounds) secret code step s e =
      elim (Option-cases (totp_code_at h secret step)) [
        | inl no_code ↦ absurd (cc (try_steps-none rounds secret code step no_code))
        | inr (want, e') ↦ elim (Bool-cases (same_bytes want code)) [
          | inl same ↦
              let c : totp_code_at h secret step ≡ some code =
                e' ∙ ap some (eq_of-same_bytes want code same) in
              let hit : step ≡ s =
                some-injective _ _ (sym (try_steps_hit rounds secret code step c) ∙ e) in
              (omega arith, omega arith, rw (← hit) c)
          | inr other ↦
              let r =
                try_steps_sound rounds secret code (step + 1) s
                  (sym (try_steps_miss rounds secret code want step e' other) ∙ e) in
              (omega (arith, r.0), omega (arith, r.1), r.2)
        ]
      ]

  try_steps_complete :
      (rounds : ℕ) (secret : String) (code : List ℕ) (step s : ℕ)
      → ((t : ℕ) → totp_code_at h secret t ≢ none)
      → Accepted secret code step rounds s
      → (t : ℕ) × (try_steps h rounds secret code step ≡ some t)
  try_steps_complete zero secret code step s total a = absurd (omega (arith, a.0, a.1))
  try_steps_complete (suc rounds) secret code step s total a =
      elim (Option-cases (totp_code_at h secret step)) [
        | inl no_code ↦ absurd (total step no_code)
        | inr (want, e') ↦ elim (Bool-cases (same_bytes want code)) [
          | inl same ↦ (
            step,
            try_steps_hit rounds secret code step (e' ∙ ap some (eq_of-same_bytes want code same)),
          )
          | inr other ↦
              let later : step ≢ s = λ same. absurd (miss step s same want e' other a.2) in
              let r =
                try_steps_complete rounds secret code (step + 1) s total
                  (omega (arith, later, a.0), omega (arith, a.1), a.2) in
              (r.0, try_steps_miss rounds secret code want step e' other ∙ r.1)
        ]
      ]
    where
      miss :
          (x y : ℕ)
          → x ≡ y
          → (want : List ℕ) → totp_code_at h secret x ≡ some want
          → same_bytes want code ≡ false
          → totp_code_at h secret y ≡ some code
          → ⊥
      miss x y same want e m e' = ground (arith, same_bytes_refl code)

  verify_code_sound :
      (secret : String) (code : List ℕ) (cur s : ℕ)
      → 0 < cur
      → verify_code h secret code cur ≡ some s
      → (cur ≤ s + 1) × (s ≤ cur + 1) × (totp_code_at h secret s ≡ some code)
  unfolding verify_code
  verify_code_sound secret code cur s late e = elim (Bool-cases (length code == 6)) [
    | inl six ↦
        let r = try_steps_sound 3 secret code (cur - 1) s (ground arith) in
        (omega (arith, r.0), omega (arith, r.1), r.2)
    | inr other ↦ absurd (ground arith)
  ]

  verify_code_complete :
      (secret : String) (code : List ℕ) (cur s : ℕ)
      → 0 < cur
      → cur ≤ s + 1
      → s ≤ cur + 1
      → totp_code_at h secret s ≡ some code
      → (t : ℕ) × (verify_code h secret code cur ≡ some t)
  unfolding verify_code
  verify_code_complete secret code cur s late lo hi e = elim (totp_code_at-cases h secret) [
    | inl never ↦ absurd (cc (never s))
    | inr always ↦
        let (c, e', digits, six) = always s in
        let same : length code ≡ 6 = ap length (some-injective _ _ (sym e ∙ e')) ∙ six in
        let r =
          try_steps_complete 3 secret code (cur - 1) s (λ t none'. cc (always t).1)
            (omega arith, omega arith, e) in
        (r.0, rw (same) r.1)
  ]

  -- An accepted code, its surroundings and inner spaces taken off, is the code of the window that
  -- is returned, and that window is the current one or a neighbour of it. The clock is past the
  -- first window.
  pub totp_verify_sound :
      (secret : String) (code : List ℕ) (now s : ℕ)
      → 30 ≤ now
      → totp_verify h secret code now ≡ some s
      → (totp_step now ≤ s + 1)
        × (s ≤ totp_step now + 1)
        × (totp_code_at h secret s ≡ some (normalise code))
  totp_verify_sound secret code now s late e =
      verify_code_sound secret (normalise code) (totp_step now) s (unfold totp_step in omega arith)
        (unfold totp_verify in e)

  -- A code of the current window or of a neighbour is accepted. The clock is past the first
  -- window.
  pub totp_verify_complete :
      (secret : String) (code : List ℕ) (now s : ℕ)
      → 30 ≤ now
      → totp_step now ≤ s + 1
      → s ≤ totp_step now + 1
      → totp_code_at h secret s ≡ some code
      → (t : ℕ) × (totp_verify h secret code now ≡ some t)
  totp_verify_complete secret code now s late lo hi e = elim (totp_code_at-cases h secret) [
    | inl never ↦ absurd (cc (never s))
    | inr always ↦
        let (c, e', digits, six) = always s in
        let same : c ≡ code = some-injective _ _ (sym e' ∙ e) in
        let clean : normalise code ≡ code =
          subst (λ l. normalise l ≡ l) same (normalise-digits c digits) in
        unfold totp_verify in
        rw clean (
          verify_code_complete secret code (totp_step now) s (unfold totp_step in omega arith) lo hi
            e)
  ]
