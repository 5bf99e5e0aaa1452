-- ===== src/Response/ReplayLedger.antt =====
-- The file of command ids already accepted (src/response/replay_ledger.cpp). Its streams are opened
-- in text mode.
pub mod Restart
use panopticon_agent.Prelude.{
  ℕ, ◌+◌, ◌≤◌, ◌<◌, ◌≡◌, ◌≢◌, refl, sym, ap, ◌∙◌, Bool, true, false, not, ◌&&◌, ◌||◌, Option, none,
  some, List, [], ◌∷◌, ◌++◌, ltb, ◌==◌, if◌then◌else◌, length, take, arith, Result, ok, err, Text,
  contains, lines, text_in, text_out,
}
use panopticon_agent.Response.Identity.{is_valid_identifier}

-- `entries` in order of insertion, the latest last, without repetition.
pub record ReplayLedger : Type 0 where
  pub maximum_entries : ℕ
  pub entries : List Text
  -- The bytes of the file, if there is one.
  pub file : Option Text

-- What the operating system answers during one call; where the flush fails, `stored` bytes of the
-- line have reached the file.
pub record LedgerEnv : Type 0 where
  pub readable : Bool
  pub directory_ok : Bool
  pub open_ok : Bool
  pub flush_ok : Bool
  pub stored : ℕ

pub data LedgerError : Type 0 where
  cannot_read malformed invalid_id capacity no_directory cannot_open cannot_flush : LedgerError

abbrev pub insert : Text → List Text → List Text
insert id entries = if contains entries id then entries else entries ++ id ∷ []

-- The loop of `load`. `error` leaves the entries read so far in place.
unfoldable pub load_lines : ℕ → List Text → List Text → List Text × Bool
load_lines maximum [] entries = (entries, true)
load_lines maximum (id ∷ ids) entries =
    let rest = load_lines maximum ids (insert id entries) in
    if not (is_valid_identifier id) || length entries == maximum then (entries, false) else rest

unfoldable pub load : LedgerEnv → ReplayLedger → ReplayLedger × Result LedgerError (Unit {0})
load env l = elim l.file [
  | none ↦ (l, ok tt)
  | some bytes ↦
      if env.readable
      then (let (entries, good) = load_lines l.maximum_entries (lines (text_in bytes)) l.entries in
          (record l { entries = entries }, if good then ok tt else err malformed))
      else (l, err cannot_read)
]

abbrev pub append_text : Option Text → Text → Option Text
append_text none t = some t
append_text (some s) t = some (s ++ t)

unfoldable pub mark_if_new :
    LedgerEnv → Text → ReplayLedger → ReplayLedger × Result LedgerError Bool
mark_if_new env id l =
    if not (is_valid_identifier id) || l.maximum_entries == 0
    then (l, err invalid_id)
    else if contains l.entries id
    then (l, ok false)
    else if length l.entries == l.maximum_entries
    then (l, err capacity)
    else if not env.directory_ok
    then (l, err no_directory)
    else if not env.open_ok
    then (l, err cannot_open)
    else if not env.flush_ok
    then (
      record l { file = append_text l.file (take env.stored (text_out (id ++ (10 ∷ [])))) },
      err cannot_flush,
    )
    else (
      record l {
        file = append_text l.file (text_out (id ++ (10 ∷ [])));
        entries = l.entries ++ id ∷ [];
      },
      ok true,
    )
