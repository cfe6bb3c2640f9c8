-- ===== src/Lifecycle/Contexts.antt =====
-- Close can reach every goroutine: before a Close, each context in use is cancelled already or has its
-- cancel function in the map.
use kafka_resilience.Base.{
  ℕ, String, ◌≡◌, ◌≢◌, sym, subst, ◌⊎◌, inl, inr, Bool-cases, true, Option, none, some, List, [],
  ◌∷◌, ◌==◌, eq_iff, arith,
}
use kafka_resilience.Base.GoMap.{lookup, lookup-insert, lookup-remove}
use kafka_resilience.Lifecycle.{Job, Service, claimed, roll_back, is_cancelled}
use kafka_resilience.Lifecycle.Steps.{Removed, here, there}

-- A property of every entry.
unfoldable pub All : {A : Type 0} → (A → Type 0) → List A → Type 0
All P [] = Unit
All P (x ∷ xs) = P x × All P xs

pub All-map :
    {A : Type 0} (P Q : A → Type 0) → ((x : A) → P x → Q x) → (l : List A) → All P l → All Q l
unfolding All
All-map P Q f [] h = tt
All-map P Q f (x ∷ xs) h = (f x h.0, All-map P Q f xs h.1)

All-both :
    {A : Type 0} (P Q R : A → Type 0)
    → ((x : A) → P x → Q x → R x)
    → (l : List A) → All P l
    → All Q l
    → All R l
unfolding All
All-both P Q R f [] h k = tt
All-both P Q R f (x ∷ xs) h k = (f x h.0 k.0, All-both P Q R f xs h.1 k.1)

pub All-Removed :
    {A : Type 0} (P : A → Type 0) {x : A} {l rest : List A}
    → Removed x l rest
    → All P l
    → P x × All P rest
unfolding All
All-Removed P here h = h
All-Removed P (there r) h = let (p, q) = All-Removed P r h.1 in (p, (h.0, q))

abbrev pub IsCancelled : Service → Job → Type 0
IsCancelled s job = is_cancelled job.context s.cancelled ≡ true

-- The cancel function in the map is the job's.
abbrev pub IsKept : Service → Job → Type 0
IsKept s job = lookup job.topic s.cancels ≡ some job.context

abbrev pub IsReached : Service → Job → Type 0
IsReached s job = IsCancelled s job ⊎ IsKept s job

abbrev pub IsOther : Job → Job → Type 0
IsOther j k = k.topic ≢ j.topic

unfoldable pub Distinct : List Job → Type 0
Distinct [] = Unit
Distinct (j ∷ js) = All (IsOther j) js × Distinct js

pub Distinct-Removed :
    {x : Job} {l rest : List Job}
    → Removed x l rest
    → Distinct l
    → All (IsOther x) rest × Distinct rest
unfolding Distinct All
Distinct-Removed here h = h
Distinct-Removed {x} (there {y} {l} {rest} r) h =
    let (other, distinct) = Distinct-Removed r h.1 in
    let (apart, rest_apart) = All-Removed (IsOther y) r h.0 in
    (((λ e. apart (sym e)), other), (rest_apart, distinct))

pub record IsOwned (s : Service) : Type 0 where
  pub keys : (topic : String) → lookup topic s.started_topics ≡ none → lookup topic s.cancels ≡ none
  pub distinct : Distinct s.starting
  pub kept : All (IsKept s) s.starting
  pub set : All (IsReached s) s.setting_up
  pub live : All (IsReached s) s.workers

pub claimed-IsOwned :
    (o : Option (Unit {0})) (topic : String) (s : Service)
    → lookup topic s.started_topics ≡ o
    → IsOwned s
    → IsOwned (claimed o topic s)
unfolding Distinct All
claimed-IsOwned (some u) topic s h owned = owned
claimed-IsOwned none topic s h owned =
    let free : lookup topic s.cancels ≡ none = owned.keys topic h in
    let other : (k : Job)
        → IsKept s k
        → IsOther (record { topic = topic; context = s.contexts }) k =
      λ k kept e. cc in
    let kept : (k : Job) → IsKept s k → IsKept (claimed none topic s) k = λ k h. ground (
      arith,
      lookup-insert topic k.topic s.contexts s.cancels,
      eq_iff topic k.topic,
      h,
      other k h,
    ) in
    record {
      keys = λ wanted h. ground (
        arith,
        lookup-insert topic wanted tt s.started_topics,
        lookup-insert topic wanted s.contexts s.cancels,
        owned.keys wanted,
        h,
      );
      distinct = (All-map _ _ other s.starting owned.kept, owned.distinct);
      kept = (
        ground (arith, lookup-insert topic topic s.contexts s.cancels, eq_iff topic topic),
        All-map _ _ kept s.starting owned.kept,
      );
      set =
          All-map _ _ (λ k h. elim h [ inl c ↦ inl c | inr m ↦ inr (kept k m) ]) s.setting_up
            owned.set;
      live =
          All-map _ _ (λ k h. elim h [ inl c ↦ inl c | inr m ↦ inr (kept k m) ]) s.workers
            owned.live;
    }

pub cancelled_still :
    (context c : ℕ) (cs : List ℕ)
    → is_cancelled context cs ≡ true
    → is_cancelled context (c ∷ cs) ≡ true
unfolding is_cancelled
cancelled_still context c cs h = ground (arith, h)

cancelled_now : (context : ℕ) (cs : List ℕ) → is_cancelled context (context ∷ cs) ≡ true
unfolding is_cancelled
cancelled_now context cs = ground arith

module _ (s : Service) (job : Job) (rest : List Job) where
  abbrev pub rolled : Service
  rolled = roll_back job (record s { starting = rest })

  same_topic : IsKept s job → (k : Job) → IsKept s k → job.topic ≡ k.topic → job.context ≡ k.context
  same_topic kept k m e = ground (arith, kept, m, e)

  roll_back-IsReached : IsKept s job → (k : Job) → IsReached s k → IsReached rolled k
  unfolding roll_back
  roll_back-IsReached kept k (inl c) = inl (cancelled_still k.context job.context s.cancelled c)
  roll_back-IsReached kept k (inr m) = elim (Bool-cases (job.topic == k.topic)) [
    | inl same ↦ inl (
        subst (λ c. is_cancelled c (job.context ∷ s.cancelled) ≡ true)
          (same_topic kept k m ((eq_iff job.topic k.topic).0 same))
          (cancelled_now job.context s.cancelled))
    | inr apart ↦ inr ground (arith, lookup-remove job.topic k.topic s.cancels, apart, m)
  ]

  pub roll_back-IsOwned : Removed job s.starting rest → IsOwned s → IsOwned rolled
  unfolding roll_back
  roll_back-IsOwned r owned =
      let (kept, all_kept) = All-Removed (IsKept s) r owned.kept in
      let (other, distinct) = Distinct-Removed r owned.distinct in
      record {
        keys = λ wanted h. ground (
          arith,
          lookup-remove job.topic wanted s.started_topics,
          lookup-remove job.topic wanted s.cancels,
          owned.keys wanted,
          h,
        );
        distinct = distinct;
        kept =
            All-both (IsOther job) (IsKept s) _
              (λ k o m.
                ground (
                  arith,
                  lookup-remove job.topic k.topic s.cancels,
                  eq_iff job.topic k.topic,
                  o,
                  m,
                ))
              rest other all_kept;
        set = All-map _ _ (roll_back-IsReached kept) s.setting_up owned.set;
        live = All-map _ _ (roll_back-IsReached kept) s.workers owned.live;
      }
