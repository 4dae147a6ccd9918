-- ===== src/Guardrails/Cap/Spends.antt =====
-- What one spend, recorded or cut short, does to the invariant of the daily ceiling.
use depix_sdk.Common.{
  ℕ, suc, ◌+◌, ◌≤◌, ◌<◌, ◌≡◌, sym, subst, [], ◌∷◌, true, false, ◌==◌, arith, Option, none, some,
  inl, inr, Option-cases, Bool-cases, All, ok, All-append, All-keep, refl,
}
use depix_sdk.Common.Text.{Text}
use depix_sdk.Common.Js.{all_finite, JsNumber, pos, str, positive_safe, max_safe_integer}
use depix_sdk.Crypto.{Platform}
use depix_sdk.Guardrails.Anchor.{GuardrailAnchorStore}
use depix_sdk.Guardrails.StateFile.{State, read_state, state_text}
use depix_sdk.Guardrails.StateFile.RoundTrip.{
  IsAmount, IsKept, read_state-IsAmount, read_state-written,
}
use depix_sdk.Guardrails.Window.{
  Guardrails, Disk, GuardrailIntent, load_state, load_window, enforce, next_state, recent,
  is_recent, sum_cents,
}
use depix_sdk.Guardrails.FailClosed.{opened, load_window-opened}
use depix_sdk.Guardrails.Cap.{Log, spent, World}
use depix_sdk.Guardrails.Cap.Sums.{
  spent_mono, recent-recent, sum_cents-recent-le, sum_cents-recent-append,
}
use depix_sdk.Guardrails.Cap.Invariant.{Accounts, IsSound, stale-IsSound, Inv, load-Accounts}

positive_safe-bounds :
    (v : JsNumber) (n : ℕ) → positive_safe v ≡ some n → (0 < n) × (n ≤ max_safe_integer)
positive_safe-bounds (pos k) n h = ground arith
positive_safe-bounds _ n h = cc

module _ (p : Platform) (a : GuardrailAnchorStore) (g : Guardrails p) where
  -- A window that is loaded with no alarm holds entries of a file that keeps them.
  load-IsKept :
      (t : ℕ) (w : World p a g) → Inv p a g w → All IsKept (load_window p a g t w.disk).entries
  unfolding load_state
  load-IsKept t w v = elim (Option-cases (opened p a g w.disk.1)) [
    | inl e ↦ rw (load_window-opened p a g t w.disk, e, load_state) tt
    | inr (s, e) ↦ elim (Bool-cases (s.epoch == (a.read w.disk.0).epoch)) [
      | inl same ↦
          rw (load_window-opened p a g t w.disk, e, load_state, same)
            (All-keep IsKept (λ x. is_recent t x.ts) s.entries (v.file.kept s e))
      | inr other ↦ rw (load_window-opened p a g t w.disk, e, load_state, other) tt
    ]
  ]

  load-IsAmount : (t : ℕ) (disk : Disk a) → All IsAmount (load_window p a g t disk).entries
  unfolding load_window load_state
  load-IsAmount t (store, none) = tt
  load-IsAmount t (store, some raw) = elim (Option-cases (read_state p g.state_key raw)) [
    | inl e ↦ rw (e, load_state) tt
    | inr (s, e) ↦ elim (Bool-cases (s.epoch == (a.read store).epoch)) [
      | inl same ↦
          rw (e, load_state, same)
            (All-keep IsAmount (λ x. is_recent t x.ts) s.entries
              (read_state-IsAmount p g.state_key raw s e))
      | inr other ↦ rw (e, load_state, other) tt
    ]
  ]

  next-Accounts :
      (t₂ t₃ cents epoch : ℕ) (kind : Text) (w : World p a g)
      → Inv p a g w
      → w.clock ≤ t₂
      → t₂ ≤ t₃
      → (load_window p a g t₂ w.disk).fail_closed ≡ false
      → Accounts t₃
          ((t₃, cents) ∷ w.log)
          (next_state p a g t₃ (load_window p a g t₂ w.disk) cents kind epoch).entries
  unfolding next_state
  next-Accounts t₂ t₃ cents epoch kind w v c d f now later =
      let es = (load_window p a g t₂ w.disk).entries in
      ground (
        arith,
        load-Accounts p a g w t₂ v c f now (omega arith),
        recent-recent t₃ now es later,
        sum_cents-recent-append now (recent t₃ es)
            (record { ts = pos t₃; brl_cents = cents; kind = some (str kind) } ∷ []),
      )

  pub next-IsSound :
      (t₂ t₃ cents : ℕ) (v : JsNumber) (iv : p.Bytes) (kind : Text) (w : World p a g)
      → Inv p a g w
      → w.clock ≤ t₂
      → t₂ ≤ t₃
      → positive_safe v ≡ some cents
      → (load_window p a g t₂ w.disk).fail_closed ≡ false
      → let e = suc (a.read w.disk.0).epoch in
        IsSound e t₃ ((t₃, cents) ∷ w.log) (
          read_state p g.state_key (
            state_text p g.state_key iv
              (next_state p a g t₃ (load_window p a g t₂ w.disk) cents kind e)))
  unfolding next_state all_finite
  next-IsSound t₂ t₃ cents v iv kind w inv c d amount f =
      let e = suc (a.read w.disk.0).epoch in
      let load = load_window p a g t₂ w.disk in
      let s = next_state p a g t₃ load cents kind e in
      let amounts : All IsAmount s.entries =
        All-append IsAmount (recent t₃ load.entries) _
          (All-keep IsAmount (λ x. is_recent t₃ x.ts) load.entries (load-IsAmount t₂ w.disk))
          (positive_safe-bounds v cents amount, tt) in
      let kept : All IsKept s.entries =
        All-append IsKept (recent t₃ load.entries) _
          (All-keep IsKept (λ x. is_recent t₃ x.ts) load.entries (load-IsKept t₂ w inv))
          ((refl, refl), tt) in
      record {
        behind = λ t o. rw (read_state-written p g.state_key iv s t amounts kept o) (omega arith);
        complete = λ t o same.
            subst (λ x. Accounts t₃ ((t₃, cents) ∷ w.log) x.entries)
              (sym (read_state-written p g.state_key iv s t amounts kept o))
              (next-Accounts t₂ t₃ cents e kind w inv c d f);
        kept = λ t o.
            subst (λ x. All IsKept x.entries)
              (sym (read_state-written p g.state_key iv s t amounts kept o)) kept;
      }

  -- What the choke point let pass fits under both ceilings, on a window that it trusted.
  enforce-fits :
      (t cents : ℕ) (disk : Disk a) (intent : GuardrailIntent)
      → positive_safe intent.brl_cents ≡ some cents
      → enforce p a g t disk intent ≡ ok tt
      → let load = load_window p a g t disk in
        (load.fail_closed ≡ false)
        × (cents ≤ g.per_tx_limit_brl_cents)
        × (sum_cents load.entries + cents ≤ g.daily_limit_brl_cents)
  unfolding enforce
  enforce-fits t cents disk intent amount h = ground arith

  -- The anchor moves on, and with it every file that was written before goes stale.
  advanced :
      (w : World p a g) (later : ℕ) (log : Log) (store : a.Store) (o : Option State)
      → a.read store ≡ record { initialized = true; epoch = suc (a.read w.disk.0).epoch }
      → IsSound (a.read w.disk.0).epoch w.clock w.log o
      → IsSound (a.read store).epoch later log o
  advanced w later log store o anchor sound =
      subst (λ x. IsSound x.epoch later log o) (sym anchor)
        (stale-IsSound (a.read w.disk.0).epoch w.clock later w.log log o sound)

  pub crash-Inv :
      (w : World p a g) (store : a.Store)
      → a.read store ≡ record { initialized = true; epoch = suc (a.read w.disk.0).epoch }
      → Inv p a g w
      → Inv p a g (record w { disk = (store, w.disk.1) })
  crash-Inv w store anchor v = record {
    unmarked = λ e. absurd (ground arith);
    file = advanced w w.clock w.log store _ anchor v.file;
    written = λ raw old. advanced w w.clock w.log store _ anchor (v.written raw old);
    within = v.within;
  }

  spent-le :
      (w : World p a g) (t₁ t₃ cents now : ℕ) (intent : GuardrailIntent)
      → Inv p a g w
      → w.clock ≤ t₁
      → t₁ ≤ t₃
      → t₃ ≤ now
      → positive_safe intent.brl_cents ≡ some cents
      → enforce p a g t₁ w.disk intent ≡ ok tt
      → spent now ((t₃, cents) ∷ w.log) ≤ g.daily_limit_brl_cents
  spent-le w t₁ t₃ cents now intent v c d later amount passed =
      let fits = enforce-fits t₁ cents w.disk intent amount passed in
      let all = load-Accounts p a g w t₁ v c fits.0 t₁ (omega arith) in
      ground (
        arith,
        fits,
        all,
        spent_mono t₁ now w.log (omega arith),
        sum_cents-recent-le t₁ (load_window p a g t₁ w.disk).entries,
      )

  pub spend-Inv :
      (w : World p a g) (t₁ t₂ t₃ cents : ℕ) (iv : p.Bytes) (intent : GuardrailIntent) (kind : Text)
      (s : a.Store) (raw : Text)
      → Inv p a g w
      → w.clock ≤ t₁
      → t₁ ≤ t₂
      → t₂ ≤ t₃
      → positive_safe intent.brl_cents ≡ some cents
      → enforce p a g t₁ w.disk intent ≡ ok tt
      → a.read s ≡ record { initialized = true; epoch = suc (a.read w.disk.0).epoch }
      → IsSound (a.read s).epoch t₃ ((t₃, cents) ∷ w.log) (read_state p g.state_key raw)
      → Inv p a g (record {
        disk = (s, some raw);
        log = (t₃, cents) ∷ w.log;
        written = raw ∷ w.written;
        clock = t₃;
      })
  spend-Inv w t₁ t₂ t₃ cents iv intent kind s raw v c d d' amount passed anchor sound = record {
    unmarked = λ e. absurd (ground arith);
    file = sound;
    written = λ x. elim [
      | inl e ↦ rw e sound
      | inr old ↦ advanced w t₃ ((t₃, cents) ∷ w.log) s _ anchor (v.written x old)
    ];
    within = λ now later. spent-le w t₁ t₃ cents now intent v c (omega arith) later amount passed;
  }
