-- ===== src/Policy/Counts.antt =====
-- A policy's counters, report and tables over any calls.
use storage_node_interface_p.Prelude.{
  ℕ, zero, suc, ◌+◌, ◌%◌, ◌^◌, ◌≤◌, ◌<◌, ◌≡◌, refl, sym, ap, subst, ◌∙◌, Bool, true, false, Option,
  none, some, List, [], ◌∷◌, ◌++◌, length, leb, if◌then◌else◌, replicate, Result, ok, err,
  Option-cases, Bool-cases, ◌⊎◌, inl, inr, arith, length-append,
}
use storage_node_interface_p.Prelude.Eq.{◌==◌, nat_eq}
use storage_node_interface_p.Prelude.Assoc.{Assoc, insert, remove}
use storage_node_interface_p.Multiaddr.{Multiaddr}
use storage_node_interface_p.Policy.{AllowEntry, allows}
use storage_node_interface_p.Policy.Net.{
  PolicySource, bootstrap, mdns, identify, kad, autodial, inbound, other, index, RefusalStage,
  admission, dial, inbound_stage, Refused, warn_dedup_cap, dial_label_cap, NetPolicy, new_policy,
  fetch_add, load, source_eq, record_refusal, judge, admit, admit_dial, dial_source,
  check_transport_dial, judge_inbound, inbound_allowed, outbound_established_allowed, label_dial,
  relabel, label_of, begin_dial, forget_dial,
}

pub data Call : Type 0 where
  admits : PolicySource → Multiaddr → Option ℕ → Call
  admits_dial : PolicySource → Multiaddr → Option ℕ → Call
  dials : Multiaddr → Bool → Call
  comes_in : Multiaddr → Multiaddr → Option ℕ → Call
  went_out : Multiaddr → ℕ → Call
  labels_dial : ℕ → PolicySource → Call
  begins : ℕ → Call
  forgets : ℕ → Call

abbrev is_ok {ℓ κ} : {E : Type ℓ} {A : Type κ} → Result E A → Bool
is_ok (ok a) = true
is_ok (err e) = false

-- The policy after the call, and whether the call did not refuse.
unfoldable pub perform : Call → NetPolicy → NetPolicy × Bool
perform (admits source addr peer) p = admit source addr peer p
perform (admits_dial source addr peer) p = admit_dial source addr peer p
perform (dials addr as_listener) p =
    let (q, answer) = check_transport_dial addr as_listener p in (q, is_ok answer)
perform (comes_in local_addr remote_addr peer) p = inbound_allowed local_addr remote_addr peer p
perform (went_out addr peer) p = outbound_established_allowed addr peer p
perform (labels_dial id source) p = (label_dial id source p, true)
perform (begins id) p = (begin_dial id p, true)
perform (forgets id) p = (forget_dial id p, true)

-- A new policy after the calls, of which the first in the list is the latest, and how many of them
-- refused.
unfoldable pub after_calls : Option (List AllowEntry) → List Call → NetPolicy × ℕ
after_calls allow [] = (new_policy false allow, 0)
after_calls allow (c ∷ earlier) =
    let (p, refused) = after_calls allow earlier in
    let (q, good) = perform c p in (q, if good then refused else refused + 1)

-- How many of the reported refusals have the source.
abbrev pub reported : PolicySource → List Refused → ℕ
reported s [] = 0
reported s (r ∷ rs) = (if source_eq r.source s then 1 else 0) + reported s rs

-- The counters are the report's counts, up to their wrap, and the tables keep to their caps.
abbrev pub Accounts : NetPolicy → ℕ → Type 0
Accounts p refused =
    (length p.refusals ≡ 7)
    × ((s : PolicySource) → load (index s) p.refusals ≡ reported s p.audit % 2 ^ 64)
    × (length p.audit ≡ refused)
    × (length p.labels ≤ dial_label_cap)
    × (length p.warned ≤ warn_dedup_cap)

index-lt : (s : PolicySource) → index s < 7
unfolding index
index-lt bootstrap = omega arith
index-lt mdns = omega arith
index-lt identify = omega arith
index-lt kad = omega arith
index-lt autodial = omega arith
index-lt inbound = omega arith
index-lt other = omega arith

length-fetch_add : (i : ℕ) (cs : List ℕ) → length (fetch_add i cs) ≡ length cs
unfolding fetch_add
length-fetch_add i [] = refl
length-fetch_add zero (c ∷ cs) = refl
length-fetch_add (suc i) (c ∷ cs) = ap suc (length-fetch_add i cs)

load-fetch_add :
    (i j : ℕ) (cs : List ℕ)
    → i < length cs
    → load j (fetch_add i cs) ≡ (if i == j then (load j cs + 1) % 2 ^ 64 else load j cs)
unfolding load fetch_add
load-fetch_add i j [] h = absurd (omega arith)
load-fetch_add zero zero (c ∷ cs) h = refl
load-fetch_add zero (suc j) (c ∷ cs) h = ground arith
load-fetch_add (suc i) zero (c ∷ cs) h = ground arith
load-fetch_add (suc i) (suc j) (c ∷ cs) h = ground (arith, load-fetch_add i j cs (omega arith))

reported-snoc :
    (s : PolicySource) (rs : List Refused) (r : Refused)
    → reported s (rs ++ (r ∷ [])) ≡ reported s rs + (if source_eq r.source s then 1 else 0)
reported-snoc s [] r = omega arith
reported-snoc s (q ∷ rs) r = omega (arith, reported-snoc s rs r)

length-remove : (id : ℕ) (m : Assoc ℕ PolicySource) → length (remove id m) ≤ length m
unfolding remove
length-remove id [] = omega arith
length-remove id ((j, v) ∷ m) = ground (arith, length-remove id m)

record_refusal-Accounts :
    (source : PolicySource) (stage : RefusalStage) (addr : Multiaddr) (p : NetPolicy) (n : ℕ)
    → Accounts p n
    → Accounts (record_refusal source stage addr p) (n + 1)
unfolding record_refusal source_eq
record_refusal-Accounts source stage addr p n (seven, counts, total, few, warned) = (
  length-fetch_add (index source) p.refusals ∙ seven,
  λ s. ground (
    arith,
    counts s,
    load-fetch_add (index source) (index s) p.refusals (omega (arith, index-lt source)),
    reported-snoc s p.audit (record { source = source; stage = stage; addr = addr }),
  ),
  omega
      (arith, length-append p.audit (record { source = source; stage = stage; addr = addr } ∷ [])),
  few,
  ground arith,
)

-- A judgement lets pass and changes nothing, or refuses and records it.
abbrev Judged : NetPolicy → NetPolicy × Bool → Type 0
Judged p r =
    ((r.0 ≡ p) × (r.1 ≡ true))
    ⊎ ((source : PolicySource) × (stage : RefusalStage) × (addr : Multiaddr) × (r.0
          ≡ record_refusal source stage addr p)
        × (r.1 ≡ false))

Judged-Accounts :
    (p : NetPolicy) (r : NetPolicy × Bool) (n : ℕ)
    → Judged p r
    → Accounts p n
    → Accounts r.0 (if r.1 then n else n + 1)
Judged-Accounts p (q, true) n (inl (same, good)) h = subst (λ k. Accounts k n) (sym same) h
Judged-Accounts p (q, false) n (inl (same, good)) h = absurd (cc)
Judged-Accounts p (q, true) n (inr (source, stage, addr, same, bad)) h = absurd (cc)
Judged-Accounts p (q, false) n (inr (source, stage, addr, same, bad)) h =
    subst (λ k. Accounts k (n + 1)) (sym same) (record_refusal-Accounts source stage addr p n h)

judge-Judged :
    (source : PolicySource) (stage : RefusalStage) (addr : Multiaddr) (peer : Option ℕ)
    (p : NetPolicy)
    → Judged p (judge source stage addr peer p)
unfolding judge
judge-Judged source stage addr peer p = elim (Option-cases p.allow) [
  | inl unrestricted ↦ simp (judge, unrestricted) (inl (refl, refl))
  | inr (entries, e) ↦ elim (Bool-cases (allows entries addr peer)) [
    | inl good ↦ simp (judge, e, good) (inl (refl, refl))
    | inr bad ↦ simp (judge, e, bad) (inr (source, stage, addr, refl, refl))
  ]
]

inbound_allowed-Judged :
    (local_addr remote_addr : Multiaddr) (peer : Option ℕ) (p : NetPolicy)
    → Judged p (inbound_allowed local_addr remote_addr peer p)
unfolding inbound_allowed
inbound_allowed-Judged local_addr remote_addr peer p = elim (Option-cases p.allow) [
  | inl unrestricted ↦ simp (inbound_allowed, unrestricted) (inl (refl, refl))
  | inr (entries, e) ↦ elim (Bool-cases (judge_inbound entries local_addr remote_addr peer).1) [
    | inl good ↦ simp (inbound_allowed, e, good) (inl (refl, refl))
    | inr bad ↦
        simp (inbound_allowed, e, bad)
          (inr (
            inbound,
            inbound_stage,
            (judge_inbound entries local_addr remote_addr peer).0,
            refl,
            refl,
          ))
  ]
]

dials-Judged :
    (addr : Multiaddr) (as_listener : Bool) (p : NetPolicy)
    → Judged p (perform (dials addr as_listener) p)
unfolding perform check_transport_dial
dials-Judged addr as_listener p = elim (Option-cases p.allow) [
  | inl unrestricted ↦ simp (perform, check_transport_dial, unrestricted) (inl (refl, refl))
  | inr (entries, e) ↦ elim (Bool-cases (allows entries addr none)) [
    | inl good ↦ simp (perform, check_transport_dial, e, good) (inl (refl, refl))
    | inr bad ↦
        simp (perform, check_transport_dial, e, bad)
          (inr (dial_source as_listener p.current, dial, addr, refl, refl))
  ]
]

relabel-Accounts :
    (labels : Assoc ℕ PolicySource) (current : PolicySource) (p q : NetPolicy) (n : ℕ)
    → Accounts p n
    → length labels ≤ dial_label_cap
    → relabel labels current p ≡ q
    → Accounts q n
relabel-Accounts labels current p q n (seven, counts, total, few, warned) fits e =
    subst (λ k. Accounts k n) e (seven, counts, total, fits, warned)

label_dial-Accounts :
    (id : ℕ) (source : PolicySource) (p : NetPolicy) (n : ℕ)
    → Accounts p n
    → Accounts (label_dial id source p) n
unfolding label_dial insert
label_dial-Accounts id source p n h = elim (Option-cases p.allow) [
  | inl e ↦
      let same : p ≡ label_dial id source p = simp (label_dial, e) (refl) in
      subst (λ k. Accounts k n) same h
  | inr (entries, e) ↦ elim (Bool-cases (leb dial_label_cap (length p.labels))) [
    | inl full ↦
        relabel-Accounts (insert id source []) p.current p (label_dial id source p) n h
          (ground (arith, length-remove id [])) (ground (arith, e, full))
    | inr room ↦
        let room_left : length p.labels < dial_label_cap = ground (arith, room) in
        relabel-Accounts (insert id source p.labels) p.current p (label_dial id source p) n h
          (omega (arith, length-remove id p.labels, room_left)) (ground (arith, e, room))
  ]
]

unlabel-Accounts :
    (id : ℕ) (p : NetPolicy) (n : ℕ)
    → Accounts p n
    → Accounts (begin_dial id p) n × Accounts (forget_dial id p) n
unfolding begin_dial forget_dial
unlabel-Accounts id p n h =
    let fits : length (remove id p.labels) ≤ dial_label_cap =
      omega (arith, length-remove id p.labels, h.3) in
    elim (Option-cases p.allow) [
      | inl e ↦
          let begun : p ≡ begin_dial id p = simp (begin_dial, e) (refl) in
          let forgotten : p ≡ forget_dial id p = simp (forget_dial, e) (refl) in
          (subst (λ k. Accounts k n) begun h, subst (λ k. Accounts k n) forgotten h)
      | inr (entries, e) ↦ (
        relabel-Accounts (remove id p.labels) (label_of id p.labels) p (begin_dial id p) n h fits
            (ground (arith, e)),
        relabel-Accounts (remove id p.labels) p.current p (forget_dial id p) n h fits
            (ground (arith, e)),
      )
    ]

perform-Accounts :
    (c : Call) (p : NetPolicy) (n : ℕ)
    → Accounts p n
    → Accounts (perform c p).0 (if (perform c p).1 then n else n + 1)
unfolding perform admit admit_dial outbound_established_allowed
perform-Accounts (admits source addr peer) p n h =
    Judged-Accounts p _ n (judge-Judged source admission addr peer p) h
perform-Accounts (admits_dial source addr peer) p n h =
    Judged-Accounts p _ n (judge-Judged source dial addr peer p) h
perform-Accounts (dials addr as_listener) p n h =
    Judged-Accounts p _ n (dials-Judged addr as_listener p) h
perform-Accounts (comes_in local_addr remote_addr peer) p n h =
    Judged-Accounts p _ n (inbound_allowed-Judged local_addr remote_addr peer p) h
perform-Accounts (went_out addr peer) p n h =
    Judged-Accounts p _ n (judge-Judged other dial addr (some peer) p) h
perform-Accounts (labels_dial id source) p n h = label_dial-Accounts id source p n h
perform-Accounts (begins id) p n h = (unlabel-Accounts id p n h).0
perform-Accounts (forgets id) p n h = (unlabel-Accounts id p n h).1

counters_zero : (s : PolicySource) → load (index s) (replicate 7 0) ≡ 0
unfolding load index
counters_zero bootstrap = refl
counters_zero mdns = refl
counters_zero identify = refl
counters_zero kad = refl
counters_zero autodial = refl
counters_zero inbound = refl
counters_zero other = refl

new_policy-Accounts : (allow : Option (List AllowEntry)) → Accounts (new_policy false allow) 0
unfolding new_policy
new_policy-Accounts allow = (refl, counters_zero, refl, omega arith, omega arith)

-- After any calls on a new policy, each source's counter is the number of reported refusals of
-- that source, up to the wrap at 2^64; there are as many reports as calls that refused; and the
-- tables of labels and warnings keep to their caps.
pub after_calls-Accounts :
    (allow : Option (List AllowEntry)) (calls : List Call)
    → Accounts (after_calls allow calls).0 (after_calls allow calls).1
unfolding after_calls
after_calls-Accounts allow [] = new_policy-Accounts allow
after_calls-Accounts allow (c ∷ earlier) =
    perform-Accounts c (after_calls allow earlier).0 (after_calls allow earlier).1
      (after_calls-Accounts allow earlier)
