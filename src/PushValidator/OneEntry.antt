-- ===== src/PushValidator/OneEntry.antt =====
-- Test data: caches that keep one entry, and two pushes of one chunk.
use storage_node_interface_p.Prelude.{refl, if◌then◌else◌, Option, none, some, [], ◌∷◌, arith, inl}
use storage_node_interface_p.Prelude.Eq.{Eq, ◌==◌, nat_eq, list_eq}
use storage_node_interface_p.Merkle.Sample.{leaf_one}
use storage_node_interface_p.PushValidator.Cached.{
  Lru, IsLru, Lrus, Config, default_epoch_ttl, default_epoch_recheck_min,
}
use storage_node_interface_p.PushValidator.Sample.{chain}
use storage_node_interface_p.PushValidator.Said.{IsLrus}
use storage_node_interface_p.PushValidator.History.{Push}

module _ {K V : Type 0} ⦃eq : Eq K⦄ where
  abbrev peek_last : K → Option (K × V) → Option V
  peek_last k none = none
  peek_last k (some (j, v)) = if j == k then some v else none

  -- A cache of one entry.
  abbrev pub last_put : Lru K V
  last_put = record {
    Cache = Option (K × V);
    new = none;
    get = λ k c. (c, peek_last k c);
    put = λ k v c. some (k, v);
    peek = peek_last;
  }

  last_put-IsLru : IsLru last_put
  last_put-IsLru = record {
    peek_new = λ k. refl;
    get_peek = λ k c. refl;
    peek_get = λ j k c. refl;
    peek_put = λ j k v w c e. inl (ground (arith, e, eq.beq_iff k j));
  }

abbrev pub caches : Lrus
caches = record { infos = last_put; snapshots = last_put; epochs = last_put }

pub caches-IsLrus : IsLrus caches
caches-IsLrus = record {
  infos = last_put-IsLru;
  snapshots = last_put-IsLru;
  epochs = last_put-IsLru;
}

abbrev pub settings : Config
settings = record {
  my_addr = 5;
  assignment_replication_factor = 3;
  epoch_ttl = default_epoch_ttl;
  epoch_recheck_min = default_epoch_recheck_min;
}

abbrev pub first_push : Push
first_push = record {
  chain = chain;
  now = 1_000;
  merkle_root = leaf_one;
  chunk_index = 0;
  payload = 1 ∷ [];
  merkle_path = [];
}

-- The same chunk again, when the caches answer.
abbrev pub second_push : Push
second_push = record {
  chain = chain;
  now = 2_000;
  merkle_root = leaf_one;
  chunk_index = 0;
  payload = 1 ∷ [];
  merkle_path = [];
}
