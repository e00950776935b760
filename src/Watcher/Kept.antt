-- ===== src/Watcher/Kept.antt =====
-- What holds after any ticks, and what a handled epoch keeps.
use storage_node_interface_p.Prelude.{
  ℕ, ◌≤◌, ◌≡◌, refl, sym, ap, subst, ◌∙◌, Bool, true, false, ◌||◌, Option, none, some, List, [],
  ◌∷◌, ◌++◌, if◌then◌else◌, any_by, Bool-cases, inl, inr, arith, some_eq,
}
use storage_node_interface_p.Prelude.Eq.{◌==◌, nat_eq, list_eq, contains}
use storage_node_interface_p.Prelude.Assoc.{Assoc, lookup, lookup-insert}
use storage_node_interface_p.Merkle.{Bytes}
use storage_node_interface_p.Trigger.{Archive}
use storage_node_interface_p.Watcher.{
  max_attempts_per_epoch, EpochState, World, EpochWatcher, push_retry, tick,
}
use storage_node_interface_p.Watcher.Ticks.{
  with_entry, IsWithin, with_attested, Effect, check-Effect, visit_roots-keeps,
}

abbrev pub fresh : EpochWatcher
fresh = record {
  state = [];
  not_v2 = [];
  report = record { checked = 0; attested = []; retry = [] };
}

-- The watchers after ticks in any worlds.
pub data Reach (a : Archive) : EpochWatcher → Type 0 where
  new : Reach a fresh
  later : {s t : EpochWatcher} (w : World) → Reach a s → tick a w s ≡ some t → Reach a t

abbrev pub Bounded : EpochWatcher → Type 0
Bounded s =
    (root : Bytes) (st : EpochState)
    → lookup root s.state ≡ some st
    → st.attempts ≤ max_attempts_per_epoch

with_entry-Bounded :
    (root : Bytes) (entry : Option EpochState) (state : Assoc Bytes EpochState)
    → IsWithin entry
    → ((r : Bytes) (st : EpochState)
        → lookup r state ≡ some st
        → st.attempts ≤ max_attempts_per_epoch)
    → (r : Bytes) (st : EpochState) → lookup r (with_entry root entry state) ≡ some st
    → st.attempts ≤ max_attempts_per_epoch
with_entry-Bounded root none state within before r st e = before r st e
with_entry-Bounded root (some new_st) state within before r st e = elim (Bool-cases (root == r)) [
  | inl same ↦
      let here : new_st ≡ st =
        some_eq (ground (arith, lookup-insert root r new_st state, same, e)) in
      subst (λ (k : EpochState). k.attempts ≤ max_attempts_per_epoch) here within
  | inr other ↦ before r st (ground (arith, lookup-insert root r new_st state, other, e))
]

Effect-Bounded : (root : Bytes) (s t : EpochWatcher) → Effect root s t → Bounded s → Bounded t
Effect-Bounded root s t (entry, attested, flagged, state, within, told, marked) before r st e =
    with_entry-Bounded root entry s.state within before r st (ap (λ m. lookup r m) (sym state) ∙ e)

tick-Bounded :
    (a : Archive) (w : World) (s t : EpochWatcher) → tick a w s ≡ some t → Bounded s → Bounded t
unfolding tick
tick-Bounded a w s t h before =
    visit_roots-keeps a w Bounded
      (λ root p r e b. Effect-Bounded root p (push_retry a root r) (check-Effect a w root p r e) b)
      w.held_roots _ t h before

-- After any ticks in any worlds, no entry of the watcher has more attempts than
-- `max_attempts_per_epoch`.
pub Reach-Bounded : (a : Archive) (s : EpochWatcher) → Reach a s → Bounded s
unfolding lookup
Reach-Bounded a s new root st e = absurd (cc)
Reach-Bounded a s (later {s = p} w r h) root st e =
    tick-Bounded a w p s h (Reach-Bounded a p r) root st e

-- Whether the tick reports an attestation of the root.
abbrev pub reports : Bytes → EpochWatcher → Bool
reports root s = any_by (λ (q : Bytes × ℕ). q.0 == root) s.report.attested

pub any_by-snoc {ℓ} :
    {A : Type ℓ} (p : A → Bool) (xs : List A) (x : A)
    → any_by p (xs ++ (x ∷ [])) ≡ (any_by p xs || p x)
any_by-snoc p [] x = ground arith
any_by-snoc p (y ∷ ys) x = ground (arith, any_by-snoc p ys x)

-- A check of another root leaves what the watcher has on this one.
pub Effect-other :
    (root checked : Bytes) (s t : EpochWatcher)
    → (checked == root) ≡ false
    → Effect checked s t
    → (lookup root t.state ≡ lookup root s.state)
      × (reports root t ≡ reports root s)
      × (contains t.not_v2 root ≡ contains s.not_v2 root)
Effect-other root checked s t differs (entry, attested, flagged, state, within, told, marked) = (
  ap (λ m. lookup root m) state ∙ keeps_entry entry,
  ap (λ xs. any_by (λ (q : Bytes × ℕ). q.0 == root) xs) told ∙ keeps_report attested,
  ap (λ xs. contains xs root) marked ∙ keeps_mark flagged,
)
  where
    keeps_entry :
        (e : Option EpochState) → lookup root (with_entry checked e s.state) ≡ lookup root s.state
    keeps_entry none = refl
    keeps_entry (some st) = ground (arith, lookup-insert checked root st s.state, differs)

    keeps_report :
        (e : Option ℕ)
        → any_by (λ (q : Bytes × ℕ). q.0 == root) (with_attested checked e s.report.attested)
          ≡ reports root s
    keeps_report none = refl
    keeps_report (some n) = ground (
      arith,
      any_by-snoc (λ (q : Bytes × ℕ). q.0 == root) s.report.attested (checked, n),
      differs,
    )

    keeps_mark :
        (f : Bool)
        → contains (if f then checked ∷ s.not_v2 else s.not_v2) root ≡ contains s.not_v2 root
    keeps_mark true = ground (arith, differs)
    keeps_mark false = refl
