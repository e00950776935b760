-- ===== src/Inbound/Runs.antt =====
-- Many arrivals, one after the other.
use storage_node_interface_p.Prelude.{
  ◌≡◌, Bool, Option, none, some, List, [], ◌∷◌, ok, Result-cases, inl, inr,
}
use storage_node_interface_p.Prelude.Eq.{nat_eq, list_eq}
use storage_node_interface_p.Prelude.Assoc.{lookup}
use storage_node_interface_p.Text.{Text}
use storage_node_interface_p.Merkle.{Bytes}
use storage_node_interface_p.PushValidator.{ValidatedPush}
use storage_node_interface_p.PushValidator.Ask.{External}
use storage_node_interface_p.PushValidator.Cached.{Lrus, Config, Caches}
use storage_node_interface_p.PushValidator.Said.{IsLrus, Says}
use storage_node_interface_p.PushValidator.Sound.{validate_push-Kept}
use storage_node_interface_p.PushValidator.History.{Push, serve}
use storage_node_interface_p.Index.Table.{find}
use storage_node_interface_p.Inbound.{Stores, held_for, Arrival, accept_validated, after_arrivals}
use storage_node_interface_p.Inbound.Backed.{IsBacked}
use storage_node_interface_p.Inbound.Accepts.{accept_chunk_validated-IsBacked}

-- Nothing is asked of what the chain says.
abbrev anything : Says
anything = record {
  Info = λ root info. Unit;
  Snapshot = λ height s. Unit;
  Epoch = λ root epoch t. Unit;
}

-- Stores that hold no chunk.
abbrev pub empty_stores : List Text → Option Bool → Bool → Stores
empty_stores protected intact read_only = record {
  manifest_idx = record {
    private_cid_to_root = [];
    gc_protected = protected;
    v2_held = [];
    v2_proofs = [];
    durable_sidecars = [];
    gc_protection_intact = intact;
    read_only = read_only;
  };
  local = [];
  held = [];
}

none-ne-some : {A : Type 0} {a : A} → ◌≡◌ {A = Option A} none (some a) → ⊥
none-ne-some e = cc

pub empty_stores-IsBacked :
    (blake3 : Bytes → Bytes) (cid_of : Bytes → Text) (protected : List Text) (intact : Option Bool)
    (read_only : Bool)
    → IsBacked blake3 cid_of (empty_stores protected intact read_only)
unfolding find lookup held_for
empty_stores-IsBacked blake3 cid_of protected intact read_only = record {
  leads = λ root i p f. absurd (none-ne-some f);
  held = λ root i cid f. absurd (none-ne-some f);
  tracked = λ root i c. absurd (cc);
}

module _ (ext : External) (cid_of : Bytes → Text) (lrus : Lrus) (lawful : IsLrus lrus)
    (cfg : Config) where
  pub serve-leaf :
      (c : Caches lrus) (push : Push) (v : ValidatedPush)
      → (serve ext lrus cfg c push).1 ≡ ok v
      → v.leaf_hash ≡ ext.blake3 push.payload
  unfolding serve
  serve-leaf c push v e =
      ((validate_push-Kept ext lrus lawful anything cfg push.chain push.now
          record { info = λ r i h. tt; snapshot = λ h s k. tt; epoch = λ r i e row h. tt }
          push.merkle_root push.chunk_index push.payload push.merkle_path c
          record { info = λ r i h. tt; snapshot = λ h s k. tt; epoch = λ r e t h. tt }).1
        v e).leaf

  accept_validated-IsBacked :
      (a : Arrival) (c : Caches lrus) (s : Stores)
      → IsBacked ext.blake3 cid_of s
      → IsBacked ext.blake3 cid_of (accept_validated ext cid_of lrus cfg a (c, s)).0.1
  unfolding accept_validated
  accept_validated-IsBacked a c s b = elim (Result-cases (serve ext lrus cfg c a.push).1) [
    | inr (why, e) ↦ rw (accept_validated, e) b
    | inl (v, e) ↦
        rw (accept_validated, e)
          (accept_chunk_validated-IsBacked ext.blake3 cid_of a.disks a.allow_private a.push v s
            (serve-leaf c a.push v e) b)
  ]

  -- After any arrivals at stores that are backed, whatever the chain and the disk answer, the
  -- stores are backed: each recorded proof leads from its leaf to its root; each chunk that is
  -- recorded as held is protected from garbage collection, is stored with bytes whose hash has its
  -- CID, and has a recorded proof of a leaf with that CID; and each chunk in the tracker is
  -- recorded as held.
  pub after_arrivals-IsBacked :
      (arrivals : List Arrival) (start : Caches lrus × Stores)
      → IsBacked ext.blake3 cid_of start.1
      → IsBacked ext.blake3 cid_of (after_arrivals ext cid_of lrus cfg arrivals start).1
  unfolding after_arrivals
  after_arrivals-IsBacked [] start b = b
  after_arrivals-IsBacked (a ∷ earlier) start b =
      let old = after_arrivals ext cid_of lrus cfg earlier start in
      accept_validated-IsBacked a old.0 old.1 (after_arrivals-IsBacked earlier start b)
