-- ===== src/Delivery/Spool/Disk/Laws.antt =====
-- How the calls of the file system change what a read of a segment finds.
use panopticon_agent.Prelude.{
  ℕ, ◌+◌, ◌≤◌, ◌<◌, ◌≡◌, ◌≢◌, refl, none, some, [], ◌∷◌, ◌++◌, length, length-append, arith,
}
use panopticon_agent.Delivery.Spool.Format.{Bytes}
use panopticon_agent.Delivery.Spool.Disk.{
  Files, Env, read_file, append_file, remove_file, reclaim, total_bytes,
}

abbrev pub contents : ℕ → Files → Bytes
contents i fs = elim (read_file i fs) [ none ↦ [] | some bs ↦ bs ]

pub read_file-append_file_self :
    (i : ℕ) (bs : Bytes) (fs : Files)
    → read_file i (append_file i bs fs) ≡ some (contents i fs ++ bs)
unfolding read_file append_file
read_file-append_file_self i bs [] = ground arith
read_file-append_file_self i bs ((j, cs) ∷ fs) = ground (arith, read_file-append_file_self i bs fs)

pub read_file-append_file_ne :
    (i k : ℕ) (bs : Bytes) (fs : Files) → i ≢ k → read_file k (append_file i bs fs) ≡ read_file k fs
unfolding read_file append_file
read_file-append_file_ne i k bs [] h = ground arith
read_file-append_file_ne i k bs ((j, cs) ∷ fs) h =
    ground (arith, read_file-append_file_ne i k bs fs)

pub read_file-remove_file_ne :
    (env : Env) (i k : ℕ) (fs : Files) → i ≢ k → read_file k (remove_file env i fs) ≡ read_file k fs
unfolding read_file remove_file
read_file-remove_file_ne env i k [] h = refl
read_file-remove_file_ne env i k ((j, cs) ∷ fs) h =
    ground (arith, read_file-remove_file_ne env i k fs)

pub read_file-reclaim :
    (env : Env) (below k : ℕ) (fs : Files)
    → below ≤ k
    → read_file k (reclaim env below fs) ≡ read_file k fs
unfolding read_file reclaim
read_file-reclaim env below k [] h = refl
read_file-reclaim env below k ((j, cs) ∷ fs) h = ground (arith, read_file-reclaim env below k fs)

pub total_bytes-append_file :
    (i : ℕ) (bs : Bytes) (fs : Files)
    → total_bytes (append_file i bs fs) ≡ total_bytes fs + length bs
unfolding total_bytes append_file
total_bytes-append_file i bs [] = omega arith
total_bytes-append_file i bs ((j, cs) ∷ fs) =
    ground (arith, length-append {0} cs bs, total_bytes-append_file i bs fs)

pub total_bytes-remove_file :
    (env : Env) (i : ℕ) (fs : Files) → total_bytes (remove_file env i fs) ≤ total_bytes fs
unfolding total_bytes remove_file
total_bytes-remove_file env i [] = omega arith
total_bytes-remove_file env i ((j, bs) ∷ fs) = ground (arith, total_bytes-remove_file env i fs)

-- No segment lies above the active one.
abbrev pub UpTo : ℕ → Files → Type 0
UpTo w [] = Unit {0}
UpTo w ((j, bs) ∷ fs) = (j ≤ w) × UpTo w fs

pub UpTo-mono : (v w : ℕ) (fs : Files) → v ≤ w → UpTo v fs → UpTo w fs
UpTo-mono v w [] h u = tt
UpTo-mono v w ((j, bs) ∷ fs) h u = (omega arith, UpTo-mono v w fs h u.1)

pub UpTo-append_file :
    (w i : ℕ) (bs : Bytes) (fs : Files) → i ≤ w → UpTo w fs → UpTo w (append_file i bs fs)
unfolding append_file
UpTo-append_file w i bs [] h u = (h, tt)
UpTo-append_file w i bs ((j, cs) ∷ fs) h u = ground (arith, UpTo-append_file w i bs fs)

pub UpTo-remove_file :
    (env : Env) (w i : ℕ) (fs : Files) → UpTo w fs → UpTo w (remove_file env i fs)
unfolding remove_file
UpTo-remove_file env w i [] u = tt
UpTo-remove_file env w i ((j, cs) ∷ fs) u = ground (arith, UpTo-remove_file env w i fs)

pub UpTo-reclaim :
    (env : Env) (w below : ℕ) (fs : Files) → UpTo w fs → UpTo w (reclaim env below fs)
unfolding reclaim
UpTo-reclaim env w below [] u = tt
UpTo-reclaim env w below ((j, cs) ∷ fs) u = ground (arith, UpTo-reclaim env w below fs)

pub read_file_above : (w i : ℕ) (fs : Files) → UpTo w fs → w < i → read_file i fs ≡ none
unfolding read_file
read_file_above w i [] u h = refl
read_file_above w i ((j, cs) ∷ fs) u h = ground (arith, read_file_above w i fs)

-- An append to the segment that is read there.
pub read_file-append_file-some :
    (w seg : ℕ) (old bs : Bytes) (fs : Files)
    → w ≡ seg
    → read_file seg fs ≡ some old
    → read_file seg (append_file w bs fs) ≡ some (old ++ bs)
unfolding read_file append_file
read_file-append_file-some w seg old bs [] h e = cc
read_file-append_file-some w seg old bs ((j, cs) ∷ fs) h e =
    ground (arith, read_file-append_file-some w seg old bs fs h)

pub read_file-append_file-none :
    (w seg : ℕ) (bs : Bytes) (fs : Files)
    → w ≡ seg
    → read_file seg fs ≡ none
    → read_file seg (append_file w bs fs) ≡ some bs
unfolding read_file append_file
read_file-append_file-none w seg bs [] h e = ground arith
read_file-append_file-none w seg bs ((j, cs) ∷ fs) h e =
    ground (arith, read_file-append_file-none w seg bs fs h)
