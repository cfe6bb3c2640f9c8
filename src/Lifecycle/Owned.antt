-- ===== src/Lifecycle/Owned.antt =====
-- Every state before a Close keeps the cancel functions, and Close cancels every context in use.
use kafka_resilience.Base.{
  ℕ, String, ◌≡◌, refl, inl, inr, Bool-cases, true, some, List, [], ◌∷◌, ◌++◌, arith,
}
use kafka_resilience.Base.GoMap.{GoMap, lookup, lookup-empty}
use kafka_resilience.Lifecycle.{
  Job, Service, claim, add_worker, launch, give_up, end_round, cancel_all, is_cancelled,
  contexts_of,
}
use kafka_resilience.Lifecycle.Steps.{
  Removed, Proceed, fails, adds, launches, gives_up, rounds, Step, claims, interrupts, proceeds,
  Open, start, later,
}
use kafka_resilience.Lifecycle.Contexts.{
  All, All-map, All-Removed, IsCancelled, IsKept, IsReached, Distinct, Distinct-Removed, IsOwned,
  claimed-IsOwned, roll_back-IsOwned, cancelled_still,
}

module _ (s : Service) (job : Job) (rest : List Job) where
  add_worker-IsOwned :
      Removed job s.starting rest
      → IsOwned s
      → IsOwned (add_worker job (record s { starting = rest }))
  unfolding add_worker All
  add_worker-IsOwned r owned =
      let (kept, all_kept) = All-Removed (IsKept s) r owned.kept in
      let (other, distinct) = Distinct-Removed r owned.distinct in
      record {
        keys = owned.keys;
        distinct = distinct;
        kept = all_kept;
        set = (inr kept, owned.set);
        live = owned.live;
      }

  launch-IsOwned :
      Removed job s.setting_up rest
      → IsOwned s
      → IsOwned (launch job (record s { setting_up = rest }))
  unfolding launch All
  launch-IsOwned r owned =
      let (reached, all_reached) = All-Removed (IsReached s) r owned.set in
      record {
        keys = owned.keys;
        distinct = owned.distinct;
        kept = owned.kept;
        set = all_reached;
        live = (reached, owned.live);
      }

  give_up-IsOwned :
      Removed job s.setting_up rest
      → IsOwned s
      → IsOwned (give_up job (record s { setting_up = rest }))
  unfolding give_up
  give_up-IsOwned r owned = record {
    keys = owned.keys;
    distinct = owned.distinct;
    kept = owned.kept;
    set = (All-Removed (IsReached s) r owned.set).1;
    live = owned.live;
  }

  end_round-IsOwned : Removed job s.workers rest → IsOwned s → IsOwned (end_round job rest s)
  unfolding end_round
  end_round-IsOwned r owned = elim (Bool-cases (is_cancelled job.context s.cancelled)) [
    | inl a ↦ rw a (record {
      keys = owned.keys;
      distinct = owned.distinct;
      kept = owned.kept;
      set = owned.set;
      live = (All-Removed (IsReached s) r owned.live).1;
    })
    | inr b ↦ rw b owned
  ]

pub Proceed-IsOwned : {s t : Service} → Proceed s t → IsOwned s → IsOwned t
Proceed-IsOwned (fails r) owned = roll_back-IsOwned _ _ _ r owned
Proceed-IsOwned (adds r) owned = add_worker-IsOwned _ _ _ r owned
Proceed-IsOwned (launches r) owned = launch-IsOwned _ _ _ r owned
Proceed-IsOwned (gives_up r) owned = give_up-IsOwned _ _ _ r owned
Proceed-IsOwned (rounds r) owned = end_round-IsOwned _ _ _ r owned

interrupt-IsOwned :
    (context : ℕ) (s : Service)
    → IsOwned s
    → IsOwned (record s { cancelled = context ∷ s.cancelled })
interrupt-IsOwned context s owned =
    let still : (k : Job)
        → IsReached s k
        → IsReached (record s { cancelled = context ∷ s.cancelled }) k =
      λ k h. elim h [
        | inl c ↦ inl (cancelled_still k.context context s.cancelled c)
        | inr m ↦ inr m
      ] in
    record {
      keys = owned.keys;
      distinct = owned.distinct;
      kept = owned.kept;
      set = All-map _ _ still s.setting_up owned.set;
      live = All-map _ _ still s.workers owned.live;
    }

claim-IsOwned : (topic : String) (s : Service) → IsOwned s → IsOwned (claim topic s)
unfolding claim
claim-IsOwned topic s owned = claimed-IsOwned _ topic s refl owned

Step-IsOwned : {s t : Service} → Step s t → IsOwned s → IsOwned t
Step-IsOwned (claims topic) owned = claim-IsOwned topic _ owned
Step-IsOwned (interrupts context) owned = interrupt-IsOwned context _ owned
Step-IsOwned (proceeds p) owned = Proceed-IsOwned p owned

pub Open-IsOwned : {s : Service} → Open s → IsOwned s
unfolding Distinct All
Open-IsOwned start = record {
  keys = λ t h. lookup-empty t;
  distinct = tt;
  kept = tt;
  set = tt;
  live = tt;
}
Open-IsOwned (later o st) = Step-IsOwned st (Open-IsOwned o)

-- A goroutine that goes on can do so only until it sees that its context is cancelled.
pub record IsStopped (s : Service) : Type 0 where
  pub starting : All (IsCancelled s) s.starting
  pub set : All (IsCancelled s) s.setting_up
  pub live : All (IsCancelled s) s.workers

cancelled_kept :
    (topic : String) (context : ℕ) (m : GoMap ℕ) (cs : List ℕ)
    → lookup topic m ≡ some context
    → is_cancelled context (contexts_of m ++ cs) ≡ true
unfolding lookup contexts_of is_cancelled
cancelled_kept topic context [] cs h = cc
cancelled_kept topic context (entry ∷ rest) cs h =
    ground (arith, h, cancelled_kept topic context rest cs)

cancelled_already :
    (context : ℕ) (ds cs : List ℕ)
    → is_cancelled context cs ≡ true
    → is_cancelled context (ds ++ cs) ≡ true
unfolding is_cancelled
cancelled_already context [] cs h = h
cancelled_already context (d ∷ ds) cs h = ground (arith, cancelled_already context ds cs h)

pub cancel_all-IsStopped : (s : Service) → IsOwned s → IsStopped (cancel_all s)
unfolding cancel_all
cancel_all-IsStopped s owned =
    let kept : (k : Job) → IsKept s k → IsCancelled (cancel_all s) k =
      λ k m. cancelled_kept k.topic k.context s.cancels s.cancelled m in
    let reached : (k : Job) → IsReached s k → IsCancelled (cancel_all s) k = λ k h. elim h [
      | inl c ↦ cancelled_already k.context (contexts_of s.cancels) s.cancelled c
      | inr m ↦ kept k m
    ] in
    record {
      starting = All-map _ _ kept s.starting owned.kept;
      set = All-map _ _ reached s.setting_up owned.set;
      live = All-map _ _ reached s.workers owned.live;
    }
