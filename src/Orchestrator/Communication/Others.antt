-- ===== src/Orchestrator/Communication/Others.antt =====
-- The sessions of the other users, under the changes that commands make
-- (src/orchestrator/src/communication.rs).
use himmelblau.Common.{
  ℕ, ◌≡◌, refl, subst, true, false, String, none, some, List, [], ◌∷◌, map, not, arith, eq_iff,
  if◌then◌else◌, retain, All, Bool-cases, inl, inr,
}
use himmelblau.Orchestrator.Session.{Session, SessionRuntime, owned_by}
use himmelblau.Orchestrator.Session.Manager.{SessionManager, has_id, find, remove}
use himmelblau.Orchestrator.Session.Manager.Invariant.{Distinct}
use himmelblau.Orchestrator.Communication.{set_runtime}

-- The sessions that are not this user's.
abbrev pub others : ℕ → List Session → List Session
others uid ss = retain (λ s. not (owned_by uid s)) ss

-- All sessions with the id are the user's.
abbrev pub Owned : ℕ → String → List Session → Type 0
Owned uid id ss = All (λ s. (if has_id id s then not (owned_by uid s) else false) ≡ false) ss

pub none-Owned :
    (uid : ℕ) (id : String) (ss : List Session)
    → All (λ s. has_id id s ≡ false) ss
    → Owned uid id ss
none-Owned uid id [] h = tt
none-Owned uid id (s ∷ ss) h = ground (arith, none-Owned uid id ss h.1)

pub find-missing : (uid : ℕ) (id : String) (ss : List Session) → find id ss ≡ none → Owned uid id ss
unfolding find
find-missing uid id [] e = tt
find-missing uid id (s ∷ ss) e = ground (arith, find-missing uid id ss)

pub find-Owned :
    (uid : ℕ) (id : String) (s : Session) (ss : List Session)
    → Distinct ss
    → find id ss ≡ some s
    → owned_by uid s ≡ true
    → Owned uid id ss
unfolding find has_id
find-Owned uid id s [] d e o = tt
find-Owned uid id s (x ∷ xs) d e o = elim (Bool-cases (has_id id x)) [
  | inl hit ↦
      let same : x.session_id ≡ id = (eq_iff x.session_id id).0 hit in
      let rest = none-Owned uid id xs (subst (λ i. All (λ y. has_id i y ≡ false) xs) same d.0) in
      ground arith
  | inr miss ↦ ground (arith, find-Owned uid id s xs d.1)
]

pub others-remove :
    (uid : ℕ) (id : String) (ss : List Session)
    → Owned uid id ss
    → others uid (remove id ss) ≡ others uid ss
unfolding remove
others-remove uid id [] h = refl
others-remove uid id (s ∷ ss) h = ground (arith, others-remove uid id ss h.1)

module _ (uid : ℕ) (id : String) (runtime : SessionRuntime) where
  abbrev updated : Session → Session
  updated s = if has_id id s then record s { runtime = runtime } else s

  others-updated :
      (ss : List Session) → Owned uid id ss → others uid (map updated ss) ≡ others uid ss
  unfolding owned_by
  others-updated [] h = refl
  others-updated (s ∷ ss) h = ground (arith, others-updated ss h.1)

  pub others-set_runtime :
      (m : SessionManager)
      → Owned uid id m.sessions
      → others uid (set_runtime id runtime m).sessions ≡ others uid m.sessions
  unfolding set_runtime
  others-set_runtime m h = others-updated m.sessions h
