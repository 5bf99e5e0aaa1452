-- ===== src/Delivery/Spool/Reader/Fifo.antt =====
-- How the pending records change with the files: appended at the end, dropped from the front,
-- untouched by what happens behind the cursor.
use panopticon_agent.Prelude.{
  ℕ, ◌+◌, ◌≤◌, ◌<◌, ◌≡◌, ◌≢◌, refl, sym, ap, ◌∙◌, none, some, List, [], ◌∷◌, ◌++◌, arith, length,
  length-append, append_assoc, append-nil, ℕ_discrete,
}
use panopticon_agent.Delivery.Spool.Format.{Bytes, SpoolRecord, frame}
use panopticon_agent.Delivery.Spool.Disk.{Files, read_file, append_file}
use panopticon_agent.Delivery.Spool.Disk.Laws.{
  read_file-append_file_ne, read_file-append_file-some, read_file-append_file-none,
}
use panopticon_agent.Delivery.Spool.State.{SpoolConfig}
use panopticon_agent.Delivery.Spool.Reader.Frames.{Fits, raw_frame}
use panopticon_agent.Delivery.Spool.Reader.Pending.{
  Spent, missing, torn, Ended, unwritten, at_end, Pending, caught_up, torn_end, move_on,
  next_record, quarantined, Ended-Spent,
}

Spent-same :
    {fs fs' : Files} {seg off : ℕ}
    → read_file seg fs' ≡ read_file seg fs
    → Spent fs seg off
    → Spent fs' seg off
Spent-same h (missing e) = missing (h ∙ e)
Spent-same h (torn pre bs e o t) = torn pre bs (h ∙ e) o t

Ended-same :
    {fs fs' : Files} {seg off : ℕ}
    → read_file seg fs' ≡ read_file seg fs
    → Ended fs seg off
    → Ended fs' seg off
Ended-same h (unwritten e o) = unwritten (h ∙ e) o
Ended-same h (at_end bs e o) = at_end bs (h ∙ e) o

-- The pending records depend only on the segments from the cursor on.
module _ {T : Type 0} {c : SpoolConfig} {fs fs' : Files} {w : ℕ} where
  pub Pending-same :
      {seg off : ℕ} {rs : List SpoolRecord}
      → Pending T c fs w seg off rs
      → ((j : ℕ) → seg ≤ j → read_file j fs' ≡ read_file j fs)
      → Pending T c fs' w seg off rs
  Pending-same {seg} {off} (caught_up e t) h = caught_up e (Ended-same (h seg (omega arith)) t)
  Pending-same {seg} {off} (torn_end x e t) h = torn_end x e (Spent-same (h seg (omega arith)) t)
  Pending-same {seg} {off} (move_on l t p) h =
      move_on l (Spent-same (h seg (omega arith)) t)
        (Pending-same {seg = seg + 1} {off = 0} p (λ j k. h j (omega arith)))
  Pending-same {seg} {off} (next_record r pre post f e o p) h =
      next_record r pre post f (h seg (omega arith) ∙ e) o
        (Pending-same {seg = seg} {off = off + length (frame r)} p h)
  Pending-same {seg} {off} (quarantined payload crc pre post k e o p) h =
      quarantined payload crc pre post k (h seg (omega arith) ∙ e) o
        (Pending-same {seg = seg} {off = off + (8 + length payload)} p h)

-- Opening a new active segment: what was torn at the end of the old one is passed over.
pub Pending-rotate :
    {T : Type 0} {c : SpoolConfig} {fs : Files} {w seg off : ℕ} {rs : List SpoolRecord}
    → Pending T c fs w seg off rs
    → read_file (w + 1) fs ≡ none
    → Pending ⊥ c fs (w + 1) seg off rs
Pending-rotate {fs = fs} {w} {seg} {off} (caught_up e t) n =
    move_on (omega arith) (Ended-Spent t)
      (caught_up (ap (λ k. k + 1) e) (unwritten (ap (λ k. read_file (k + 1) fs) e ∙ n) refl))
Pending-rotate {fs = fs} {w} {seg} {off} (torn_end x e t) n =
    move_on (omega arith) t
      (caught_up (ap (λ k. k + 1) e) (unwritten (ap (λ k. read_file (k + 1) fs) e ∙ n) refl))
Pending-rotate {w = w} {seg} {off} (move_on l t p) n =
    move_on (omega arith) t (Pending-rotate {seg = seg + 1} {off = 0} p n)
Pending-rotate {w = w} {seg} {off} (next_record r pre post f e o p) n =
    next_record r pre post f e o (Pending-rotate {seg = seg} {off = off + length (frame r)} p n)
Pending-rotate {w = w} {seg} {off} (quarantined payload crc pre post k e o p) n =
    quarantined payload crc pre post k e o
      (Pending-rotate {seg = seg} {off = off + (8 + length payload)} p n)

-- A file that holds some bytes still holds them, with perhaps more behind, after an append.
grown :
    (w seg : ℕ) (fs : Files) (pre mid post bs : Bytes)
    → read_file seg fs ≡ some (pre ++ (mid ++ post))
    → (post' : Bytes) × (read_file seg (append_file w bs fs) ≡ some (pre ++ (mid ++ post')))
grown w seg fs pre mid post bs e = elim (ℕ_discrete w seg) [
  | yes h ↦ (
    post ++ bs,
    read_file-append_file-some w seg (pre ++ (mid ++ post)) bs fs h e ∙ ap some (simp append_assoc),
  )
  | no h ↦ (post, read_file-append_file_ne w seg bs fs h ∙ e)
]

-- Behind exactly `bs` the new frame is the next record, and the last.
last_record :
    {c : SpoolConfig} (fs : Files) (w seg off : ℕ) (bs : Bytes) (r : SpoolRecord)
    → Fits c r
    → seg ≡ w
    → read_file seg fs ≡ some (bs ++ frame r)
    → off ≡ length bs
    → Pending ⊥ c fs w seg off (r ∷ [])
last_record fs w seg off bs r f e h o =
    next_record r bs [] f (h ∙ ap some (rw append-nil)) o
      (caught_up e (at_end (bs ++ frame r) h (omega (arith, length-append {0} bs (frame r)))))

-- An append of a whole frame to the active segment: its record comes last.
pub Pending-append :
    {c : SpoolConfig} {fs : Files} {w seg off : ℕ} {rs : List SpoolRecord}
    → Pending ⊥ c fs w seg off rs
    → (r : SpoolRecord) → Fits c r
    → Pending ⊥ c (append_file w (frame r) fs) w seg off (rs ++ r ∷ [])
Pending-append {fs = fs} {w} {seg} {off} (caught_up e (unwritten n o)) r f =
    last_record _ w seg off [] r f e (read_file-append_file-none w seg (frame r) fs (sym e) n) o
Pending-append {fs = fs} {w} {seg} {off} (caught_up e (at_end bs n o)) r f =
    last_record _ w seg off bs r f e (read_file-append_file-some w seg bs (frame r) fs (sym e) n) o
Pending-append {w = w} {seg} {off} (torn_end x e t) r f = absurd x
Pending-append {fs = fs} {w} {seg} {off} (move_on l t p) r f =
    move_on l (Spent-same (read_file-append_file_ne w seg (frame r) fs (omega arith)) t)
      (Pending-append {seg = seg + 1} {off = 0} p r f)
Pending-append {fs = fs} {w} {seg} {off} (next_record x pre post g e o p) r f =
    let (post', e') = grown w seg fs pre (frame x) post (frame r) e in
    next_record x pre post' g e' o (Pending-append {seg = seg} {off = off + length (frame x)} p r f)
Pending-append {fs = fs} {w} {seg} {off} (quarantined payload crc pre post k e o p) r f =
    let (post', e') = grown w seg fs pre (raw_frame payload crc) post (frame r) e in
    quarantined payload crc pre post' k e' o
      (Pending-append {seg = seg} {off = off + (8 + length payload)} p r f)

-- Leaving a sealed segment early loses the records of that segment only, and those first.
pub Pending-leave :
    {T : Type 0} {c : SpoolConfig} {fs : Files} {w seg off : ℕ} {rs : List SpoolRecord}
    → Pending T c fs w seg off rs
    → seg < w
    → (lost rest : List SpoolRecord) × (rs ≡ lost ++ rest) × Pending T c fs w (seg + 1) 0 rest
Pending-leave {w = w} {seg} {off} (caught_up e t) h = absurd (omega arith)
Pending-leave {w = w} {seg} {off} (torn_end x e t) h = absurd (omega arith)
Pending-leave {w = w} {seg} {off} (move_on {rs = rs} l t p) h = ([], rs, refl, p)
Pending-leave {w = w} {seg} {off} (next_record x pre post g e o p) h =
    let (lost, rest, q, p') = Pending-leave {seg = seg} {off = off + length (frame x)} p h in
    (x ∷ lost, rest, ap (λ l. x ∷ l) q, p')
Pending-leave {w = w} {seg} {off} (quarantined payload crc pre post k e o p) h =
    Pending-leave {seg = seg} {off = off + (8 + length payload)} p h

missing_not_some :
    (i : ℕ) (fs : Files) (bs : Bytes) → read_file i fs ≡ none → read_file i fs ≡ some bs → ⊥
missing_not_some i fs bs e h = cc

-- Deleting a segment ahead of the cursor, with no file in between, loses its records only.
pub Pending-delete :
    {T : Type 0} {c : SpoolConfig} {fs fs' : Files} {w seg off : ℕ} {rs : List SpoolRecord}
    → Pending T c fs w seg off rs
    → (i : ℕ) → seg < i
    → i < w
    → ((j : ℕ) → j < i → read_file j fs ≡ none)
    → read_file i fs' ≡ none
    → ((j : ℕ) → j ≢ i → read_file j fs' ≡ read_file j fs)
    → (lost rest : List SpoolRecord) × (rs ≡ lost ++ rest) × Pending T c fs' w seg off rest
Pending-delete {w = w} {seg} {off} (caught_up e t) i l m below gone same = absurd (omega arith)
Pending-delete {w = w} {seg} {off} (torn_end x e t) i l m below gone same = absurd (omega arith)
Pending-delete {fs = fs} {fs'} {w} {seg} {off} (move_on {rs = rs} k t p) i l m below gone same =
    elim (ℕ_discrete (seg + 1) i) [
      | yes e ↦
          let (lost, rest, q, p') = Pending-leave p (omega arith) in
          (
            lost,
            rest,
            q,
            move_on k (Spent-same (same seg (omega arith)) t) (
                move_on (omega arith) (missing (ap (λ j. read_file j fs') e ∙ gone))
                  (Pending-same p' (λ j h. same j (omega arith)))),
          )
      | no n ↦
          let (lost, rest, q, p') =
            Pending-delete {seg = seg + 1} {off = 0} p i (omega arith) m below gone same in
          (lost, rest, q, move_on k (Spent-same (same seg (omega arith)) t) p')
    ]
Pending-delete {fs = fs} {w = w} {seg} {off} (next_record x pre post g e o p) i l m below gone
      same =
    absurd (missing_not_some seg fs _ (below seg l) e)
Pending-delete {fs = fs} {w = w} {seg} {off} (quarantined payload crc pre post k e o p) i l m below
      gone same =
    absurd (missing_not_some seg fs _ (below seg l) e)
