-- ===== src/Policy/Net.antt =====
-- crates/sum-net/src/policy.rs: the policy of a node, with what it counts, reports and attributes.
-- The atomic counters wrap at 2^64. The audit stream is the list of the refusals sent on it; the
-- other kinds of audit event are not the policy's. A connection id is a number.
use storage_node_interface_p.Prelude.{
  ℕ, zero, suc, ◌+◌, ◌%◌, ◌^◌, Bool, true, false, ◌&&◌, not, Option, none, some, List, [], ◌∷◌,
  ◌++◌, length, get_elem?, ltb, leb, if◌then◌else◌, replicate, Result, ok, err, any_by,
}
use storage_node_interface_p.Prelude.Eq.{◌==◌, nat_eq, list_eq}
use storage_node_interface_p.Prelude.Assoc.{Assoc, lookup, insert, remove}
use storage_node_interface_p.Multiaddr.{Multiaddr, protocol_eq, has_circuit}
use storage_node_interface_p.Policy.{AllowEntry, PeerPin, enforce, defer, decide, allows}

pub data PolicySource : Type 0 where
  bootstrap : PolicySource
  mdns : PolicySource
  identify : PolicySource
  kad : PolicySource
  autodial : PolicySource
  inbound : PolicySource
  other : PolicySource

unfoldable pub index : PolicySource → ℕ
index bootstrap = 0
index mdns = 1
index identify = 2
index kad = 3
index autodial = 4
index inbound = 5
index other = 6

pub data RefusalStage : Type 0 where
  admission : RefusalStage
  dial : RefusalStage
  inbound_stage : RefusalStage

-- `ConnectionAudit::Refused`
pub record Refused : Type 0 where
  pub source : PolicySource
  pub stage : RefusalStage
  pub addr : Multiaddr

abbrev pub warn_dedup_cap : ℕ
warn_dedup_cap = 1_024

abbrev pub dial_label_cap : ℕ
dial_label_cap = 4_096

pub record NetPolicy : Type 0 where
  pub mdns_on : Bool
  pub allow : Option (List AllowEntry)
  pub refusals : List ℕ
  pub audit : List Refused
  pub labels : Assoc ℕ PolicySource
  pub current : PolicySource
  pub warned : List (PolicySource × Multiaddr)

-- `NetPolicy::new`
unfoldable pub new_policy : Bool → Option (List AllowEntry) → NetPolicy
new_policy mdns_on allow = record {
  mdns_on = mdns_on;
  allow = allow;
  refusals = replicate 7 0;
  audit = [];
  labels = [];
  current = other;
  warned = [];
}

-- `fetch_add(1)` on a counter of the array.
unfoldable pub fetch_add : ℕ → List ℕ → List ℕ
fetch_add i [] = []
fetch_add zero (c ∷ cs) = ((c + 1) % 2 ^ 64) ∷ cs
fetch_add (suc i) (c ∷ cs) = c ∷ fetch_add i cs

unfoldable pub load : ℕ → List ℕ → ℕ
load i counters = elim (get_elem? counters i) [ none ↦ 0 | some c ↦ c ]

unfoldable pub source_eq : PolicySource → PolicySource → Bool
source_eq s t = index s == index t

-- Whether the pair has been warned about.
unfoldable pub was_warned : PolicySource → Multiaddr → List (PolicySource × Multiaddr) → Bool
was_warned s addr warned = any_by (λ w. source_eq w.0 s && w.1 == addr) warned

unfoldable pub record_refusal : PolicySource → RefusalStage → Multiaddr → NetPolicy → NetPolicy
record_refusal source stage addr p = record {
  mdns_on = p.mdns_on;
  allow = p.allow;
  refusals = fetch_add (index source) p.refusals;
  audit = p.audit ++ (record { source = source; stage = stage; addr = addr } ∷ []);
  labels = p.labels;
  current = p.current;
  warned =
      if ltb (length p.warned) warn_dedup_cap && not (was_warned source addr p.warned)
      then (source, addr) ∷ p.warned
      else p.warned;
}

-- The answer, with the policy after it.
unfoldable pub judge :
    PolicySource → RefusalStage → Multiaddr → Option ℕ → NetPolicy → NetPolicy × Bool
judge source stage addr peer p = elim p.allow [
  | none ↦ (p, true)
  | some entries ↦
      if allows entries addr peer then (p, true) else (record_refusal source stage addr p, false)
]

unfoldable pub admit : PolicySource → Multiaddr → Option ℕ → NetPolicy → NetPolicy × Bool
admit source addr peer p = judge source admission addr peer p

unfoldable pub admit_dial : PolicySource → Multiaddr → Option ℕ → NetPolicy → NetPolicy × Bool
admit_dial source addr peer p = judge source dial addr peer p

unfoldable pub allows_quietly : Multiaddr → Option ℕ → NetPolicy → Bool
allows_quietly addr peer p = elim p.allow [ none ↦ true | some entries ↦ allows entries addr peer ]

-- The source that a refused dial is attributed to; `as_listener` is `role == Endpoint::Listener`.
unfoldable pub dial_source : Bool → PolicySource → PolicySource
dial_source as_listener current =
    if source_eq current other && as_listener then autodial else current

unfoldable pub check_transport_dial :
    Multiaddr → Bool → NetPolicy → NetPolicy × Result PolicySource (Unit {0})
check_transport_dial addr as_listener p = elim p.allow [
  | none ↦ (p, ok tt)
  | some entries ↦ if allows entries addr none then (p, ok tt) else (
    record_refusal (dial_source as_listener p.current) dial addr p,
    err (dial_source as_listener p.current),
  )
]

abbrev pin_for : Option ℕ → PeerPin
pin_for none = defer
pin_for (some p) = enforce

-- The judged address, and the answer.
unfoldable pub judge_inbound : List AllowEntry → Multiaddr → Multiaddr → Option ℕ → Multiaddr × Bool
judge_inbound entries local_addr remote_addr peer =
    if has_circuit local_addr
    then (local_addr, decide entries local_addr none enforce)
    else (remote_addr, decide entries remote_addr peer (pin_for peer))

unfoldable pub inbound_allowed : Multiaddr → Multiaddr → Option ℕ → NetPolicy → NetPolicy × Bool
inbound_allowed local_addr remote_addr peer p = elim p.allow [
  | none ↦ (p, true)
  | some entries ↦
      let (judged, good) = judge_inbound entries local_addr remote_addr peer in
      if good then (p, true) else (record_refusal inbound inbound_stage judged p, false)
]

unfoldable pub outbound_established_allowed : Multiaddr → ℕ → NetPolicy → NetPolicy × Bool
outbound_established_allowed addr peer p = judge other dial addr (some peer) p

-- The policy with other labels and another current source.
abbrev pub relabel : Assoc ℕ PolicySource → PolicySource → NetPolicy → NetPolicy
relabel labels current p = record {
  mdns_on = p.mdns_on;
  allow = p.allow;
  refusals = p.refusals;
  audit = p.audit;
  labels = labels;
  current = current;
  warned = p.warned;
}

unfoldable pub label_dial : ℕ → PolicySource → NetPolicy → NetPolicy
label_dial id source p = elim p.allow [
  | none ↦ p
  | some entries ↦
      relabel (insert id source (if leb dial_label_cap (length p.labels) then [] else p.labels))
        p.current p
]

-- `labels.remove(&id).unwrap_or(Other)`
unfoldable pub label_of : ℕ → Assoc ℕ PolicySource → PolicySource
label_of id labels = elim (lookup id labels) [ none ↦ other | some source ↦ source ]

unfoldable pub begin_dial : ℕ → NetPolicy → NetPolicy
begin_dial id p = elim p.allow [
  | none ↦ p
  | some entries ↦ relabel (remove id p.labels) (label_of id p.labels) p
]

unfoldable pub forget_dial : ℕ → NetPolicy → NetPolicy
forget_dial id p = elim p.allow [
  | none ↦ p
  | some entries ↦ relabel (remove id p.labels) p.current p
]
