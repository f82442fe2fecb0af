-- ===== src/Gitreceive/Pod/Examples.antt =====
-- A concrete store of pods.
use builder.Base.{
  ℕ, Bytes, codes, Bool, true, false, List, [], ◌∷◌, map, Option, some, none, ◌≡◌, arith, ◌&&◌,
}
use builder.Maps.{Map, lookup}
use builder.Text.Equality.{eqb, eqb_iff}
use builder.K8s.Watch.{Stored}
use builder.Gitreceive.Pod.{Pod, running, wait_for_pod, wait_for_pod_end}
use builder.Gitreceive.Pod.Watched.{polls, own, wait_for_pod-own}

abbrev has_value : Option Bytes → Bytes → Bool
has_value none v = false
has_value (some w) v = eqb w v

-- A selector of labels: each key of the set has its value.
has_all : Map Bytes → Map Bytes → Bool
has_all [] labels = true
has_all ((k, v) ∷ set) labels = has_value (lookup k labels) v && has_all set labels

has_all_lem :
    (set labels : Map Bytes) (k v : Bytes)
    → has_all set labels ≡ true
    → lookup k set ≡ some v
    → lookup k labels ≡ some v
unfolding has_all lookup
has_all_lem [] labels k v h e = cc
has_all_lem ((j, w) ∷ set) labels k v h e =
    ground (arith, eqb_iff j k, has_all_lem set labels k v, has_value_lem (lookup j labels) w)
  where
    has_value_lem : (o : Option Bytes) (x : Bytes) → has_value o x ≡ true → o ≡ some x
    has_value_lem none x g = cc
    has_value_lem (some y) x g = ground (arith, eqb_iff y x)

abbrev labelled_pod : Bytes → Stored Pod
labelled_pod job_name = record {
  labels = (codes "heritage", codes "drycc") ∷ (codes "job-name", job_name) ∷ [];
  pod = record { phase = running; reason = []; message = [] };
}

abbrev stores : List (List (Stored Pod))
stores = (labelled_pod (codes "other") ∷ labelled_pod (codes "job") ∷ []) ∷ []

wait_for_pod-own_example :
    (wait_for_pod (polls {E = ℕ} has_all (codes "job") stores)
      ≡ wait_for_pod (polls {E = ℕ} has_all (codes "job") (map (own (codes "job")) stores)))
    × (wait_for_pod_end (polls {E = ℕ} has_all (codes "job") stores)
        ≡ wait_for_pod_end (polls {E = ℕ} has_all (codes "job") (map (own (codes "job")) stores)))
wait_for_pod-own_example = wait_for_pod-own has_all has_all_lem ℕ (codes "job") stores
