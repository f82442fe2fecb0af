-- ===== src/K8s/Client.antt =====
-- pkg/k8s/client.go. The configuration of the cluster and the constructor of clients are the client
-- library's: what they give are arguments.
use builder.Base.{Result, ok, err}

-- What a function does that may panic: it returns, or panics with the text of an error.
pub data Attempt (E A : Type 0) : Type 0 where
  returned : Result E A → Attempt E A
  panicked : E → Attempt E A

-- `NewInCluster`
unfoldable pub new_in_cluster : {E G C : Type 0} → Result E G → (G → Result E C) → Attempt E C
new_in_cluster (err e) new_for_config = panicked e
new_in_cluster (ok config) new_for_config = elim (new_for_config config) [
  | err e ↦ panicked e
  | ok clientset ↦ returned (ok clientset)
]
