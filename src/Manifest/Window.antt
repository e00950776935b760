-- ===== src/Manifest/Window.antt =====
-- The window that a request reads.
use storage_node_interface_p.Prelude.{ℕ, ◌+◌, ◌^◌, ◌≤◌, ◌<◌, ◌≡◌, min, Option, none, some, arith}
use storage_node_interface_p.Manifest.{unwrap_or, resolve_chunk_window}

-- For a chunk whose size is below 2^64, the window is the requested range cut to the chunk without
-- the saturation showing, its start is not past its end, and its end is not past the chunk.
pub resolve_chunk_window-exact :
    (total : ℕ) (offset max_bytes : Option ℕ)
    → total < 2 ^ 64
    → ((resolve_chunk_window total offset max_bytes).0 ≡ min (unwrap_or offset 0) total)
      × ((resolve_chunk_window total offset max_bytes).1
          ≡ min (min (unwrap_or offset 0) total + unwrap_or max_bytes total) total)
      × ((resolve_chunk_window total offset max_bytes).0
          ≤ (resolve_chunk_window total offset max_bytes).1)
      × ((resolve_chunk_window total offset max_bytes).1 ≤ total)
unfolding resolve_chunk_window
resolve_chunk_window-exact total none none h = omega arith
resolve_chunk_window-exact total none (some m) h = omega arith
resolve_chunk_window-exact total (some o) none h = omega arith
resolve_chunk_window-exact total (some o) (some m) h = omega arith
