-- ===== src/Kv/Store.antt =====
-- The state of a storage node: the globals of kvstore/kvstore.cc, the members of `LRUCache`, the
-- files below its working directory and the bytes that it has sent.
use cis505_penn_cloud.Prelude.{ℕ, Bool, List, [], ◌∷◌, ◌++◌, ◌*◌}
use cis505_penn_cloud.Prelude.Int.{ℤ}
use cis505_penn_cloud.Prelude.Text.{Bytes}
use cis505_penn_cloud.StdMap.{StdMap}
use cis505_penn_cloud.Kv.Nodes.{Heap}

abbrev pub memory_capacity : ℕ
memory_capacity = 500 * 1024 * 1024

abbrev pub chunk_size : ℕ
chunk_size = 64 * 1024 * 1024

-- The two strings "virtual memory" and "checkpointing" that name a kind of chunks.
pub data Kind : Type 0 where
  virtual_memory checkpoint : Kind

-- An entry of `chunk_info`: the number of the current chunk, and its size.
pub record ChunkInfo : Type 0 where
  pub number : ℕ
  pub size : ℕ

-- An entry of `virmem_meta` or `cp_meta`.
pub record Extent : Type 0 where
  pub chunk : ℕ
  pub start : ℕ
  pub len : ℕ

pub record MsgPair : Type 0 where
  pub sq : ℤ
  pub msg : Bytes

pub record Store : Type 0 where
  pub capacity : ℕ
  pub memory_used : ℤ
  pub nodes : Heap
  pub tablets : StdMap Bytes ℕ
  pub user_size : StdMap Bytes ℤ
  pub virmem_info : ChunkInfo
  pub cp_info : ChunkInfo
  pub virmem_meta : StdMap Bytes (List Extent)
  pub cp_meta : StdMap Bytes (List Extent)
  pub files : StdMap Bytes Bytes
  pub log : Bytes
  pub is_primary : Bool
  pub secondary_fd : ℤ
  pub seq_num_records : StdMap Bytes ℤ
  pub primary_holdback : StdMap Bytes (List MsgPair)
  pub sent : List (ℤ × Bytes)

-- `send(fd, msg)`
abbrev pub send : ℤ → Bytes → Store → Store
send fd msg s = record s { sent = s.sent ++ (fd, msg) ∷ [] }
