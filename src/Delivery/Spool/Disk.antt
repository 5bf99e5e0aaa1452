-- ===== src/Delivery/Spool/Disk.antt =====
-- The spool directory: segment files by index, the cursor sidecar, and the calls of
-- std::filesystem that src/delivery/spool.cpp makes.
pub mod Laws
use panopticon_agent.Prelude.{
  ℕ, zero, suc, ◌+◌, Bool, false, ◌&&◌, ◌||◌, Option, none, some, List, [], ◌∷◌, ◌++◌, ltb, ◌==◌,
  if◌then◌else◌, length,
}
use panopticon_agent.Delivery.Spool.Format.{Bytes}

abbrev pub Files : Type 0
Files = List (ℕ × Bytes)

pub record Disk : Type 0 where
  pub segments : Files
  -- What `spool.cursor` says: a segment index and an offset.
  pub cursor : Option (ℕ × ℕ)

-- What becomes of the cursor sidecar when it is written: the rename of the temporary file fails, or
-- it puts the whole text in place, or a text that was cut short, which then says something else or
-- nothing.
pub data CursorWrite : Type 0 where
  not_renamed : CursorWrite
  renamed : CursorWrite
  renamed_cut : Option (ℕ × ℕ) → CursorWrite

-- What the operating system answers during one call.
pub record Env : Type 0 where
  pub now_ms : ℕ
  pub cursor_write : CursorWrite
  pub removable : ℕ → Bool
  -- How many bytes of an append reach the file before a crash or a full disk.
  pub stored : ℕ

unfoldable pub read_file : ℕ → Files → Option Bytes
read_file i [] = none
read_file i ((j, bs) ∷ fs) = if j == i then some bs else read_file i fs

-- `std::ofstream(path, app)` and the writes to it.
unfoldable pub append_file : ℕ → Bytes → Files → Files
append_file i bs [] = (i, bs) ∷ []
append_file i bs ((j, cs) ∷ fs) =
    if j == i then (j, cs ++ bs) ∷ fs else (j, cs) ∷ append_file i bs fs

-- `std::filesystem::remove` on one path.
unfoldable pub remove_file : Env → ℕ → Files → Files
remove_file env i [] = []
remove_file env i ((j, bs) ∷ fs) =
    let rest : Files = remove_file env i fs in
    if j == i && env.removable j then rest else (j, bs) ∷ rest

-- The reclaim loop of `report_outcome`: drop what lies behind the read cursor.
unfoldable pub reclaim : Env → ℕ → Files → Files
reclaim env below [] = []
reclaim env below ((j, bs) ∷ fs) =
    let rest : Files = reclaim env below fs in
    if ltb j below && env.removable j then rest else (j, bs) ∷ rest

unfoldable pub total_bytes : Files → ℕ
total_bytes [] = 0
total_bytes ((j, bs) ∷ fs) = length bs + total_bytes fs

-- One round of `if (!oldest || *idx < *oldest) oldest = idx;`
unfoldable pub older : ℕ → Option ℕ → Option ℕ
older i none = some i
older i (some m) = if ltb i m then some i else some m

unfoldable pub newer : ℕ → Option ℕ → Option ℕ
newer i none = some i
newer i (some m) = if ltb m i then some i else some m

-- The oldest segment but for the active one.
unfoldable pub oldest_evictable : ℕ → Files → Option ℕ
unfolding older
oldest_evictable active [] = none
oldest_evictable active ((j, bs) ∷ fs) =
    let rest : Option ℕ = oldest_evictable active fs in if j == active then rest else older j rest

unfoldable pub min_index : Files → Option ℕ
unfolding older
min_index [] = none
min_index ((j, bs) ∷ fs) = older j (min_index fs)

unfoldable pub max_index : Files → Option ℕ
unfolding newer
max_index [] = none
max_index ((j, bs) ∷ fs) = newer j (max_index fs)

unfoldable pub exists_file : ℕ → Files → Bool
exists_file i [] = false
exists_file i ((j, bs) ∷ fs) = j == i || exists_file i fs

-- The segments that exist among `rounds` indices from `i` on.
unfoldable pub count_existing : ℕ → ℕ → Files → ℕ
unfolding exists_file
count_existing zero i fs = 0
count_existing (suc rounds) i fs =
    (if exists_file i fs then 1 else 0) + count_existing rounds (i + 1) fs
