-- ===== src/K8s/Watch.antt =====
-- pkg/k8s/watch.go: the pods that are in the watcher's store. The store and the selector are the client
-- library's; a selector is what it says of the labels of a pod.
use builder.Base.{Bool, List, [], ◌∷◌, Bytes, Result, ok, if◌then◌else◌}
use builder.Maps.{Map}

-- A pod in the store, with its labels; `P` is what else there is of it.
pub record Stored (P : Type 0) : Type 0 where
  pub labels : Map Bytes
  pub pod : P

unfoldable pub selected : {P : Type 0} → (Map Bytes → Bool) → List (Stored P) → List P
selected matches [] = []
selected matches (m ∷ store) =
    let pods = selected matches store in if matches m.labels then m.pod ∷ pods else pods

-- `StoreToPodLister.List`; its error is always nil.
unfoldable pub list_pods : {E P : Type 0} → (Map Bytes → Bool) → List (Stored P) → Result E (List P)
unfolding selected
list_pods matches store = ok (selected matches store)

-- What `NewInformerWithOptions` of the client library gives together.
pub record PodWatcher (S C : Type 0) : Type 0 where
  pub store : S
  pub controller : C

-- cache.ListWatch, on options `O`
pub record ListWatch (O R X E : Type 0) : Type 0 where
  pub list_func : O → Result E R
  pub watch_func : O → Result E X

-- The pods of one namespace in the client library: List and Watch, and `metav1.ListOptions{}`.
pub record Pods (O R X E : Type 0) : Type 0 where
  pub list : (ns : Bytes) → O → Result E R
  pub watch : (ns : Bytes) → O → Result E X
  pub no_options : O

module _ {O R X E : Type 0} (c : Pods O R X E) (ns : Bytes) where
  -- Both take no notice of the options that they are given.
  pub pod_list_func : O → Result E R
  pod_list_func options = c.list ns c.no_options

  pub pod_watch_func : O → Result E X
  pod_watch_func options = c.watch ns c.no_options

  -- `NewPodWatcher`, where `new_informer` is `cache.NewInformerWithOptions`.
  unfoldable pub new_pod_watcher : {S C : Type 0} → (ListWatch O R X E → S × C) → PodWatcher S C
  unfolding pod_list_func pod_watch_func
  new_pod_watcher new_informer =
      let (store, controller) =
        new_informer (record { list_func = pod_list_func; watch_func = pod_watch_func }) in
      record { store = store; controller = controller }
