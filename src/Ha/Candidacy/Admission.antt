-- ===== src/Ha/Candidacy/Admission.antt =====
-- What the gates of a candidacy ask, as a predicate on what was observed.
use pg_agent_rs.Prelude.{
  ℕ, ◌≤◌, ◌<◌, ◌≡◌, ◌≢◌, refl, Bool, true, false, Option, none, some, List, [], ◌∷◌, arith, All,
  find, lookup, Bool-cases, Option-cases, inl, inr,
}
use pg_agent_rs.Ha.{
  HaConfig, as_millis, HaDecision, took_over, awaiting_promotion, LocalView, PeerView,
}
use pg_agent_rs.Ha.Candidacy.Gates.{
  backoff_gate, known_gate, witness_of, find_witness, witness_gate, detach_gate, is_mover,
  mover_gate, entry_gates, fresh, ◌orelse◌,
}

-- no backoff, or one that is over
abbrev pub BackoffOver : Option ℕ → ℕ → Type 0
BackoffOver none now = Unit
BackoffOver (some until) now = until ≤ now

-- an age of a sighting that is older than the ttl, or no sighting
abbrev pub OlderThan : ℕ → Option ℕ → Type 0
OlderThan ttl_ms none = Unit
OlderThan ttl_ms (some age) = ttl_ms < age

-- a reachable peer other than the holder has not seen the holder serve within the ttl
abbrev pub NoWitness : ℕ → ℕ → PeerView → Type 0
NoWitness holder ttl_ms p =
    p.reachable ≡ true → p.node ≢ holder → OlderThan ttl_ms (lookup holder p.seen_ages)

abbrev pub NoWitnesses : Option (ℕ × ℕ) → ℕ → List PeerView → Type 0
NoWitnesses none ttl_ms peers = Unit
NoWitnesses (some (holder, term)) ttl_ms peers = All (NoWitness holder ttl_ms) peers

-- What the gates ask of the candidate and of its peers.
pub record IsAdmitted (cfg : HaConfig) (now : ℕ) (backoff : Option ℕ) (expected : Option (ℕ × ℕ))
    (l : LocalView) (peers : List PeerView) : Type 0 where
  pub backoff_over : BackoffOver backoff now
  pub local_known : l.is_primary ≢ none
  pub no_witness : NoWitnesses expected (as_millis cfg.leader_ttl) peers
  pub not_streaming : l.is_primary ≡ some false → l.receiving ≡ false
  pub no_mover : All (λ (p : PeerView). is_mover p ≡ false) peers

fresh-none : (ttl_ms node : ℕ) (o : Option ℕ) → fresh ttl_ms node o ≡ none → OlderThan ttl_ms o
fresh-none ttl_ms node none e = tt
fresh-none ttl_ms node (some age) e = ground arith

witness_of-none :
    (holder ttl_ms : ℕ) (p : PeerView)
    → witness_of holder ttl_ms p ≡ none
    → NoWitness holder ttl_ms p
unfolding witness_of
witness_of-none holder ttl_ms p h r n =
    fresh-none ttl_ms p.node (lookup holder p.seen_ages) (ground arith)

find_witness-none :
    (holder ttl_ms : ℕ) (peers : List PeerView)
    → find_witness holder ttl_ms peers ≡ none
    → All (NoWitness holder ttl_ms) peers
unfolding find_witness
find_witness-none holder ttl_ms [] h = tt
find_witness-none holder ttl_ms (p ∷ ps) h = (
  witness_of-none holder ttl_ms p (ground arith),
  find_witness-none holder ttl_ms ps (ground arith),
)

find-none :
    (f : PeerView → Bool) (ps : List PeerView) → find f ps ≡ none → All (λ p. f p ≡ false) ps
find-none f [] h = tt
find-none f (p ∷ ps) h = elim (Bool-cases (f p)) [
  | inl e ↦ absurd (cc (rw e at h))
  | inr e ↦ (e, find-none f ps (rw e at h))
]

all_none :
    (a b c d e : Option HaDecision)
    → (a orelse b orelse c orelse d orelse e) ≡ none
    → (a ≡ none) × (b ≡ none) × (c ≡ none) × (d ≡ none) × (e ≡ none)
all_none none none none none none h = (refl, refl, refl, refl, refl)
all_none a b c d e h = ground arith

known_gate-none : (o : Option Bool) → known_gate o ≡ none → o ≢ none
unfolding known_gate
known_gate-none none h e = cc
known_gate-none (some x) h e = cc

detach_gate-none :
    (expected : Option (ℕ × ℕ)) (l : LocalView)
    → detach_gate expected l ≡ none
    → l.is_primary ≡ some false
    → l.receiving ≡ false
unfolding detach_gate
detach_gate-none expected l h e = ground arith

mover_gate-none :
    (peers : List PeerView)
    → mover_gate peers ≡ none
    → All (λ (p : PeerView). is_mover p ≡ false) peers
unfolding mover_gate
mover_gate-none peers h = find-none is_mover peers (elim (Option-cases (find is_mover peers)) [
  | inl e ↦ e
  | inr (p, e) ↦ absurd (cc (rw (e, mover_gate) at h))
])

backoff_gate-none :
    (backoff : Option ℕ) (now : ℕ) → backoff_gate backoff now ≡ none → BackoffOver backoff now
unfolding backoff_gate
backoff_gate-none none now h = tt
backoff_gate-none (some until) now h = ground arith

witness_gate-none :
    (expected : Option (ℕ × ℕ)) (ttl_ms : ℕ) (peers : List PeerView)
    → witness_gate expected ttl_ms peers ≡ none
    → NoWitnesses expected ttl_ms peers
unfolding witness_gate
witness_gate-none none ttl_ms peers h = tt
witness_gate-none (some (holder, term)) ttl_ms peers h =
    find_witness-none holder ttl_ms peers (ground arith)

pub entry_gates-none :
    (cfg : HaConfig) (now : ℕ) (backoff : Option ℕ) (expected : Option (ℕ × ℕ)) (l : LocalView)
    (peers : List PeerView)
    → entry_gates cfg now backoff expected l peers ≡ none
    → IsAdmitted cfg now backoff expected l peers
unfolding entry_gates
entry_gates-none cfg now backoff expected l peers h =
    let ttl : ℕ = as_millis cfg.leader_ttl in
    let (b, k, w, d, m) =
      all_none (backoff_gate backoff now) (known_gate l.is_primary)
        (witness_gate expected ttl peers) (detach_gate expected l) (mover_gate peers) h in
    record {
      backoff_over = backoff_gate-none backoff now b;
      local_known = known_gate-none l.is_primary k;
      no_witness = witness_gate-none expected ttl peers w;
      not_streaming = detach_gate-none expected l d;
      no_mover = mover_gate-none peers m;
    }

-- does a decision take the lease, or wait to be promoted under it?
abbrev pub takes : Option HaDecision → Bool
takes (some (took_over term already)) = true
takes (some (awaiting_promotion term held_for)) = true
takes _ = false

orelse_passive :
    (a b : Option HaDecision) → takes a ≡ false → takes b ≡ false → takes (a orelse b) ≡ false
orelse_passive none b h k = k
orelse_passive (some d) b h k = h

backoff_passive : (o : Option ℕ) (now : ℕ) → takes (backoff_gate o now) ≡ false
unfolding backoff_gate
backoff_passive none now = refl
backoff_passive (some u) now = ground arith

known_passive : (o : Option Bool) → takes (known_gate o) ≡ false
unfolding known_gate
known_passive none = refl
known_passive (some p) = refl

witness_passive :
    (e : Option (ℕ × ℕ)) (ttl_ms : ℕ) (peers : List PeerView)
    → takes (witness_gate e ttl_ms peers) ≡ false
unfolding witness_gate
witness_passive none ttl_ms peers = refl
witness_passive (some (h, t)) ttl_ms peers = ground arith

detach_passive : (e : Option (ℕ × ℕ)) (l : LocalView) → takes (detach_gate e l) ≡ false
unfolding detach_gate
detach_passive none l = ground arith
detach_passive (some (h, t)) l = ground arith

mover_passive : (peers : List PeerView) → takes (mover_gate peers) ≡ false
unfolding mover_gate
mover_passive peers = ground arith

-- no gate answers with a takeover
pub entry_gates_passive :
    (cfg : HaConfig) (now : ℕ) (backoff : Option ℕ) (e : Option (ℕ × ℕ)) (l : LocalView)
    (peers : List PeerView)
    → takes (entry_gates cfg now backoff e l peers) ≡ false
unfolding entry_gates
entry_gates_passive cfg now backoff e l peers = orelse_passive _ _ (backoff_passive backoff now) (
    orelse_passive _ _ (known_passive l.is_primary) (
      orelse_passive _ _ (witness_passive e (as_millis cfg.leader_ttl) peers)
        (orelse_passive _ _ (detach_passive e l) (mover_passive peers))))
