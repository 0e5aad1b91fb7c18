-- ===== src/ReplayMarkers.antt =====
-- The markers of finished hooks (crates/pg-agent-core/src/replay_markers.rs): `has`, `mark_done` and
-- `sweep`. A marker's file name, the hook with the SHA-256 digest of the hook and the key, is a
-- constructor with what it is made of, so two markers have one name only where hook and key agree.
use pg_agent_rs.Prelude.{
  lift, ℕ, zero, suc, ℤ, pos, negsuc, ◌+◌, ◌≡◌, ◌⊎◌, refl, Bool, true, false, not, ◌&&◌, ◌||◌, List,
  [], ◌∷◌, In, leb, any, Result, ok, err, if◌then◌else◌, Bool-cases, inl, inr, arith, ◌==◌,
}
use pg_agent_rs.Inflight.Journal.{Io}

abbrev pub int_eqb : ℤ → ℤ → Bool
int_eqb (pos m) (pos n) = m == n
int_eqb (negsuc m) (negsuc n) = m == n
int_eqb _ _ = false

-- the hook, with the ids of its key: the detached node and the new main node, or the new primary;
-- for `failover`, the old primary as well
pub data MarkerName : Type 0 where
  failover_marker : ℤ → ℤ → ℤ → MarkerName
  follow_primary_marker : ℤ → ℤ → MarkerName

abbrev pub marker_eqb : MarkerName → MarkerName → Bool
marker_eqb (failover_marker a b c) (failover_marker x y z) =
    int_eqb a x && int_eqb b y && int_eqb c z
marker_eqb (follow_primary_marker a b) (follow_primary_marker x y) = int_eqb a x && int_eqb b y
marker_eqb _ _ = false

-- a `.json` file of the directory: a marker with its completion, or one that does not parse
pub data ReplayFile : Type 0 where
  marker_file : MarkerName → ℕ → ReplayFile
  broken_file : MarkerName → ReplayFile

abbrev pub file_name : ReplayFile → MarkerName
file_name (marker_file n t) = n
file_name (broken_file n) = n

pub data ReplayError : Type 0 where
  stat_failed : ReplayError
  rename_failed : ReplayError

-- is there a file of the name? Its content is not looked at.
unfoldable pub has : Io → MarkerName → List ReplayFile → Result ReplayError Bool
has io name files =
    if io.reads
    then ok (any (λ (f : ReplayFile). marker_eqb (file_name f) name) files)
    else err stat_failed

-- the rename replaces the file of the name, or adds one
unfoldable pub put_file : MarkerName → ℕ → List ReplayFile → List ReplayFile
put_file name now [] = marker_file name now ∷ []
put_file name now (f ∷ fs) =
    let rest = put_file name now fs in
    if marker_eqb (file_name f) name then marker_file name now ∷ fs else f ∷ rest

unfoldable pub mark_done :
    Io → ℕ → MarkerName → List ReplayFile → Result ReplayError (Unit {0}) × List ReplayFile
unfolding put_file
mark_done io now name files =
    if io.writes then (ok tt, put_file name now files) else (err rename_failed, files)

-- What the file system answers in a sweep: whether the directory is read, how many entries it gives
-- before it fails, and whether a file is read and is removed.
pub record SweepIo : Type 0 where
  pub opens : Bool
  pub entries : ℕ
  pub reads_file : MarkerName → Bool
  pub removes_file : MarkerName → Bool

-- `sweep_one`: is the file left?
unfoldable pub sweep_one : SweepIo → ℕ → ℕ → ReplayFile → Bool
sweep_one io retention now (broken_file n) = true
sweep_one io retention now (marker_file n t) =
    not (io.reads_file n) || leb now (t + retention) || not (io.removes_file n)

unfoldable pub sweep_entries : SweepIo → ℕ → ℕ → ℕ → List ReplayFile → List ReplayFile
unfolding sweep_one
sweep_entries io retention now zero files = files
sweep_entries io retention now (suc k) [] = []
sweep_entries io retention now (suc k) (f ∷ fs) =
    let rest = sweep_entries io retention now k fs in
    if sweep_one io retention now f then f ∷ rest else rest

unfoldable pub sweep : SweepIo → ℕ → ℕ → List ReplayFile → List ReplayFile
unfolding sweep_entries
sweep io retention now files =
    if io.opens then sweep_entries io retention now io.entries files else files

int_eqb_refl : (a : ℤ) → int_eqb a a ≡ true
int_eqb_refl (pos n) = ground arith
int_eqb_refl (negsuc n) = ground arith

marker_eqb_refl : (n : MarkerName) → marker_eqb n n ≡ true
marker_eqb_refl (failover_marker a b c) = rw (int_eqb_refl a, int_eqb_refl b, int_eqb_refl c) refl
marker_eqb_refl (follow_primary_marker a b) = rw (int_eqb_refl a, int_eqb_refl b) refl

-- a marker that was written is found
pub has-put_file :
    (io : Io) (name : MarkerName) (now : ℕ) (files : List ReplayFile)
    → io.reads ≡ true
    → has io name (put_file name now files) ≡ ok true
unfolding has put_file
has-put_file io name now [] r = rw (r, marker_eqb_refl name) refl
has-put_file io name now (f ∷ fs) r = elim (Bool-cases (marker_eqb (file_name f) name)) [
  | inl e ↦ rw (r, e) (rw (marker_eqb_refl name) refl)
  | inr e ↦ rw (r, e) (rw e (rw r at (has-put_file io name now fs r)))
]

-- A sweep forgets no hook too early: a file that it removes was a marker whose retention was over,
-- was read and parsed; so a marker within its retention and a file that does not parse stay.
pub In-sweep :
    (io : SweepIo) (retention now : ℕ) (files : List ReplayFile) (f : ReplayFile)
    → In f files
    → In f (sweep io retention now files) ⊎ (sweep_one io retention now f ≡ false)
unfolding sweep
In-sweep io retention now files f m = elim (Bool-cases io.opens) [
  | inr e ↦ rw e (inl m)
  | inl e ↦ rw e (in_entries io.entries files m)
]
  where
    in_entries :
        (k : ℕ) (fs : List ReplayFile)
        → In f fs
        → In f (sweep_entries io retention now k fs) ⊎ (sweep_one io retention now f ≡ false)
    in_entries zero fs m = inl m
    in_entries (suc k) [] (lift m) = absurd m
    in_entries (suc k) (g ∷ fs) (inl p) = elim (Bool-cases (sweep_one io retention now g)) [
      | inl e ↦ rw (e, sweep_entries) (inl (inl p))
      | inr e ↦ inr (rw p e)
    ]
    in_entries (suc k) (g ∷ fs) (inr n) = elim (Bool-cases (sweep_one io retention now g)) [
      | inl e ↦
          rw (e, sweep_entries) (elim (in_entries k fs n) [ inl i ↦ inl (inr i) | inr q ↦ inr q ])
      | inr e ↦ rw (e, sweep_entries) (in_entries k fs n)
    ]
