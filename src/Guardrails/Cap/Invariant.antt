-- ===== src/Guardrails/Cap/Invariant.antt =====
-- Every state file that could be loaded accounts for all that was spent.
use depix_sdk.Common.{
  ℕ, suc, ◌≤◌, ◌≡◌, List, [], true, false, ◌==◌, ==_iff, arith, Option, none, some, inl, inr,
  Option-cases, Bool-cases, Result-cases, ok, All,
}
use depix_sdk.Common.Text.{Text}
use depix_sdk.Common.Js.{JsNumber, positive_safe}
use depix_sdk.Crypto.{Platform}
use depix_sdk.Guardrails.Anchor.{GuardrailAnchorStore}
use depix_sdk.Guardrails.StateFile.{StateEntry, State, read_state, state_text}
use depix_sdk.Guardrails.StateFile.RoundTrip.{IsKept}
use depix_sdk.Guardrails.Window.{
  Guardrails, Disk, load_state, load_window, record_spend, record_window, next_state, recent,
  sum_cents,
}
use depix_sdk.Guardrails.FailClosed.{opened, load_window-opened}
use depix_sdk.Guardrails.Cap.{Log, spent, IsOneOf, World}
use depix_sdk.Guardrails.Cap.Sums.{recent-recent}

-- From `clock` on, the entries in the window add up to what was spent.
abbrev pub Accounts : ℕ → Log → List StateEntry → Type 0
Accounts clock log es = (now : ℕ) → clock ≤ now → sum_cents (recent now es) ≡ spent now log

-- What a file opens to is not ahead of the anchor, at the anchor's epoch it is complete, and JSON
-- keeps its entries.
pub record IsSound (epoch clock : ℕ) (log : Log) (o : Option State) : Type 0 where
  pub behind : (s : State) → o ≡ some s → s.epoch ≤ epoch
  pub complete : (s : State) → o ≡ some s → s.epoch ≡ epoch → Accounts clock log s.entries
  pub kept : (s : State) → o ≡ some s → All IsKept s.entries

pub none-IsSound :
    (epoch clock : ℕ) (log : Log) (o : Option State) → o ≡ none → IsSound epoch clock log o
none-IsSound epoch clock log o e = record {
  behind = λ s h. absurd (cc e);
  complete = λ s h. absurd (cc e);
  kept = λ s h. absurd (cc e);
}

-- A later epoch makes a file stale, whatever was spent since.
pub stale-IsSound :
    (epoch clock later : ℕ) (log log' : Log) (o : Option State)
    → IsSound epoch clock log o
    → IsSound (suc epoch) later log' o
stale-IsSound epoch clock later log log' o h = record {
  behind = λ s e. let b = h.behind s e in omega arith;
  complete = λ s e f. let b = h.behind s e in absurd (omega arith);
  kept = h.kept;
}

module _ (p : Platform) (a : GuardrailAnchorStore) (g : Guardrails p) where
  pub record Inv (w : World p a g) : Type 0 where
    pub unmarked : (a.read w.disk.0).initialized ≡ false → w.log ≡ []
    pub file : IsSound (a.read w.disk.0).epoch w.clock w.log (opened p a g w.disk.1)
    pub written :
        (raw : Text)
        → IsOneOf raw w.written
        → IsSound (a.read w.disk.0).epoch w.clock w.log (read_state p g.state_key raw)
    pub within : (now : ℕ) → w.clock ≤ now → spent now w.log ≤ g.daily_limit_brl_cents

  -- A window that is loaded with no alarm accounts for everything.
  pub load-Accounts :
      (w : World p a g) (t : ℕ)
      → Inv w
      → w.clock ≤ t
      → (load_window p a g t w.disk).fail_closed ≡ false
      → Accounts t w.log (load_window p a g t w.disk).entries
  unfolding load_state
  load-Accounts w t v c f now later = elim (Option-cases (opened p a g w.disk.1)) [
    | inl e ↦ ground (arith, load_window-opened p a g t w.disk, v.unmarked)
    | inr (s, e) ↦ elim (Bool-cases (s.epoch == (a.read w.disk.0).epoch)) [
      | inl same ↦ ground (
        arith,
        load_window-opened p a g t w.disk,
        recent-recent t now s.entries later,
        v.file.complete s e ((==_iff _ _).0 same) now (omega arith),
      )
      | inr other ↦ ground (arith, load_window-opened p a g t w.disk, v.unmarked)
    ]
  ]

  -- What a call of `recordSpend` that returned has done.
  pub record Recorded (t₂ t₃ : ℕ) (iv : p.Bytes) (disk : Disk a) (v : JsNumber) (kind : Text)
      (between after : Disk a) : Type 0 where
    pub cents : ℕ
    pub store : a.Store
    pub amount : positive_safe v ≡ some cents
    pub trusted : (load_window p a g t₂ disk).fail_closed ≡ false
    pub anchor : a.read store ≡ record { initialized = true; epoch = suc (a.read disk.0).epoch }
    pub first : between ≡ (store, disk.1)
    pub second : after ≡ (
      store,
      some (
          state_text p g.state_key iv (
            next_state p a g t₃
              (load_window p a g t₂ disk)
              cents
              kind
              (suc (a.read disk.0).epoch))),
    )

  pub recorded :
      (t₂ t₃ : ℕ) (iv : p.Bytes) (disk : Disk a) (v : JsNumber) (kind : Text)
      (between after : Disk a)
      → record_spend p a g t₂ t₃ iv disk v kind ≡ ok (between, after)
      → Recorded t₂ t₃ iv disk v kind between after
  unfolding record_spend record_window
  recorded t₂ t₃ iv disk v kind between after h = elim (Option-cases (positive_safe v)) [
    | inl e ↦ absurd (ground arith)
    | inr (cents, e) ↦ elim (Result-cases (a.advance disk.0)) [
      | inr (x, f) ↦ absurd (ground arith)
      | inl (s, f) ↦ record {
        cents = cents;
        store = s;
        amount = e;
        trusted = ground arith;
        anchor = a.read-advance disk.0 s f;
        first = ground arith;
        second = ground (arith, a.read-advance disk.0 s f);
      }
    ]
  ]
