-- ===== src/Gitreceive/Pod/Watched.antt =====
-- The waits for a pod, over what the watcher's store holds at each poll.
use builder.Base.{
  ap, sym, Bytes, codes, Bool, true, List, [], ◌∷◌, map, some, none, Result, ◌≡◌, refl, arith,
  if◌then◌else◌,
}
use builder.Text.Equality.{eqb, eqb_iff}
use builder.Maps.{Map, lookup}
use builder.K8s.Watch.{Stored, selected, list_pods}
use builder.Gitreceive.Pod.{Pod, wait_for_pod, wait_for_pod_end}

-- labels.Set
abbrev pub job_set : Bytes → Map Bytes
job_set job_name = (codes "job-name", job_name) ∷ (codes "heritage", codes "drycc") ∷ []

-- The polls of `waitForPodCondition` on the stores of the watcher, one for each poll; `as_selector` is
-- `labels.Set.AsSelector` with `Matches`.
unfoldable pub polls :
    {E : Type 0}
    → (Map Bytes → Map Bytes → Bool)
    → Bytes
    → List (List (Stored Pod))
    → List (Result E (List Pod))
polls as_selector job_name [] = []
polls as_selector job_name (store ∷ stores) =
    list_pods (as_selector (job_set job_name)) store ∷ polls as_selector job_name stores

-- The pods that carry the name of the job.
pub own : Bytes → List (Stored Pod) → List (Stored Pod)
own job_name [] = []
own job_name (m ∷ store) =
    let rest = own job_name store in
    elim (lookup (codes "job-name") m.labels) [
      | none ↦ rest
      | some name ↦ if eqb name job_name then m ∷ rest else rest
    ]

module _ (as_selector : Map Bytes → Map Bytes → Bool)
    (matches : (set labels : Map Bytes) (k v : Bytes)
      → as_selector set labels ≡ true
      → lookup k set ≡ some v
      → lookup k labels ≡ some v) where
  labelled :
      (job_name : Bytes) (labels : Map Bytes)
      → as_selector (job_set job_name) labels ≡ true
      → lookup (codes "job-name") labels ≡ some job_name
  unfolding lookup eqb
  labelled job_name labels h = matches (job_set job_name) labels (codes "job-name") job_name h refl

  selected-own :
      (job_name : Bytes) (store : List (Stored Pod))
      → selected (as_selector (job_set job_name)) (own job_name store)
        ≡ selected (as_selector (job_set job_name)) store
  unfolding selected own
  selected-own job_name [] = refl
  selected-own job_name (m ∷ store) =
      ground
        (arith, selected-own job_name store, labelled job_name m.labels, eqb_iff job_name job_name)

  polls-own :
      (E : Type 0) (job_name : Bytes) (stores : List (List (Stored Pod)))
      → polls {E = E} as_selector job_name (map (own job_name) stores)
        ≡ polls as_selector job_name stores
  unfolding polls list_pods
  polls-own E job_name [] = refl
  polls-own E job_name (store ∷ stores) =
      rw (polls-own E job_name stores, selected-own job_name store)

  -- Where a selector of a set of labels matches only pods that carry these labels, as the client library
  -- documents: the waits for a pod of a job to come up and to end see no pod of another job, nor one
  -- without a job. They end as they would if the store only had those that carry the job's name.
  pub wait_for_pod-own :
      (E : Type 0) (job_name : Bytes) (stores : List (List (Stored Pod)))
      → (wait_for_pod (polls {E = E} as_selector job_name stores)
          ≡ wait_for_pod (polls {E = E} as_selector job_name (map (own job_name) stores)))
        × (wait_for_pod_end (polls {E = E} as_selector job_name stores)
            ≡ wait_for_pod_end (polls {E = E} as_selector job_name (map (own job_name) stores)))
  wait_for_pod-own E job_name stores = (
    ap wait_for_pod (sym (polls-own E job_name stores)),
    ap wait_for_pod_end (sym (polls-own E job_name stores)),
  )
