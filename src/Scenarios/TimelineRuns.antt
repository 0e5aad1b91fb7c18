-- ===== src/Scenarios/TimelineRuns.antt =====
-- Verdicts on concrete history files.
use pg_agent_rs.Prelude.{ℕ, ℤ, pos, List, [], ◌∷◌, ◌≡◌, refl}
use pg_agent_rs.Timeline.{
  ControlPoint, TimelineSwitch, yes, diverged, not_a_descendant, is_known, judge, reachable,
}
use pg_agent_rs.Timeline.Evidence.{Evidence}
use pg_agent_rs.Timeline.Verdicts.{reachable-Evidence}

-- timeline 5 branched off timeline 4 at 300
abbrev history : List TimelineSwitch
history = record { tli = pos 1; switchpoint = 100 } ∷ record { tli = pos 4; switchpoint = 300 } ∷ []

abbrev at : ℤ → ℕ → ControlPoint
at tli lsn = record { timeline_id = tli; checkpoint_lsn = lsn }

verdicts :
    (reachable (at (pos 4) 250) (pos 5) history ≡ yes)
    × (reachable (at (pos 4) 300) (pos 5) history ≡ yes)
    × (reachable (at (pos 4) 301) (pos 5) history ≡ diverged 300)
    × (reachable (at (pos 3) 301) (pos 5) history ≡ not_a_descendant)
    × (reachable (at (pos 5) 301) (pos 5) history ≡ yes)
unfolding reachable is_known judge
verdicts = (refl, refl, refl, refl, refl)

reachable-Evidence_example :
    Evidence (at (pos 4) 301) (pos 5) history (reachable (at (pos 4) 301) (pos 5) history)
reachable-Evidence_example = reachable-Evidence (at (pos 4) 301) (pos 5) history
