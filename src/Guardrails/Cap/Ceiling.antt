-- ===== src/Guardrails/Cap/Ceiling.antt =====
-- No history takes more than the daily limit out of the wallet in 24 hours.
use depix_sdk.Common.{
  ℕ, suc, ◌≤◌, ◌≡◌, refl, sym, ap, subst, [], ◌∷◌, true, false, arith, none, some,
}
use depix_sdk.Crypto.{Platform}
use depix_sdk.Guardrails.Anchor.{GuardrailAnchorStore}
use depix_sdk.Guardrails.StateFile.{read_state, state_text}
use depix_sdk.Guardrails.Window.{Guardrails, load_window, next_state}
use depix_sdk.Guardrails.FailClosed.{opened}
use depix_sdk.Guardrails.Cap.{
  spent, IsOneOf, World, Step, spend, crash, delete, garble, replay, Reach, here, next,
}
use depix_sdk.Guardrails.Cap.Invariant.{IsSound, none-IsSound, Inv, recorded}
use depix_sdk.Guardrails.Cap.Spends.{next-IsSound, crash-Inv, spend-Inv}

module _ (p : Platform) (a : GuardrailAnchorStore) (g : Guardrails p) where
  -- The invariant lives on through every event.
  Step-Inv : {w u : World p a g} → Step p a g w u → Inv p a g w → Inv p a g u
  Step-Inv {w} (spend t₁ t₂ t₃ cents iv intent kind s raw between c d d' amount passed done) v =
      let r = recorded p a g t₂ t₃ iv w.disk intent.brl_cents kind between (s, some raw) done in
      let anchor : a.read s ≡ record { initialized = true; epoch = suc (a.read w.disk.0).epoch } =
        rw (← r.anchor) (ap a.read (ap (λ x. x.0) r.second)) in
      let text : raw
          ≡ state_text p g.state_key iv (
              next_state p a g t₃ (load_window p a g t₂ w.disk) cents kind
                (suc (a.read w.disk.0).epoch)) =
        ground (arith, r.second, r.amount) in
      spend-Inv p a g w t₁ t₂ t₃ cents iv intent kind s raw v c d d' amount passed anchor (
        subst (λ x. IsSound x.epoch t₃ ((t₃, cents) ∷ w.log) (read_state p g.state_key raw))
          (sym anchor)
          (rw text (
            next-IsSound p a g t₂ t₃ cents intent.brl_cents iv kind w v (omega arith) d' amount
              r.trusted)))
  Step-Inv {w} (crash t₂ t₃ iv x kind between after c done) v =
      let r = recorded p a g t₂ t₃ iv w.disk x kind between after done in
      subst (λ x. Inv p a g (record w { disk = x })) (sym r.first)
        (crash-Inv p a g w r.store r.anchor v)
  Step-Inv {w} delete v = record {
    unmarked = v.unmarked;
    file = none-IsSound _ _ _ _ refl;
    written = v.written;
    within = v.within;
  }
  Step-Inv {w} (garble raw broken) v = record {
    unmarked = v.unmarked;
    file = none-IsSound _ _ _ _ broken;
    written = v.written;
    within = v.within;
  }
  Step-Inv {w} (replay raw old) v = record {
    unmarked = v.unmarked;
    file = v.written raw old;
    written = v.written;
    within = v.within;
  }

  -- A wallet before its first spend: no marker, nothing spent, nothing written, and no state file that
  -- opens.
  pub record IsFresh (w : World p a g) : Type 0 where
    pub unmarked : (a.read w.disk.0).initialized ≡ false
    pub unopened : opened p a g w.disk.1 ≡ none
    pub no_log : w.log ≡ []
    pub no_files : w.written ≡ []

  IsFresh-Inv : (w : World p a g) → IsFresh w → Inv p a g w
  IsFresh-Inv w f = record {
    unmarked = λ e. f.no_log;
    file = none-IsSound _ _ _ _ f.unopened;
    written = λ raw old. absurd (subst (IsOneOf raw) f.no_files old);
    within = λ now later. rw f.no_log (omega arith);
  }

  Reach-Inv : {w u : World p a g} → Inv p a g w → Reach p a g w u → Inv p a g u
  Reach-Inv v here = v
  Reach-Inv v (next r s) = Step-Inv s (Reach-Inv v r)

  -- From a fresh wallet on, whatever spends, crashes, deletions, corruptions and replays of old state
  -- files happen: at every later time the spends signed in the 24 hours before it add up to at most
  -- the daily limit.
  pub daily_ceiling :
      (w u : World p a g) (now : ℕ)
      → IsFresh w
      → Reach p a g w u
      → u.clock ≤ now
      → spent now u.log ≤ g.daily_limit_brl_cents
  daily_ceiling w u now f r later =
      let v : Inv p a g u = Reach-Inv (IsFresh-Inv w f) r in v.within now later
