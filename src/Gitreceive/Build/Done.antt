-- ===== src/Gitreceive/Build/Done.antt =====
-- When a build returns no error.
use builder.Base.{Bytes, ◌≡◌}
use builder.Git.Sha.{Sha}
use builder.Gitreceive.Config.{Config}
use builder.Gitreceive.Stack.{Stack}
use builder.Gitreceive.Build.{Run, done}
use builder.Gitreceive.Calls.{Calls}
use builder.Gitreceive.Build.Given.{Given, Built, Prepared, Finished}

-- What follows from a run's end without an error.
module _ {E : Type 0} (Goal : Type 0) where
  abbrev pub Ends : Run E → Type 0
  Ends r = r.1 ≡ done → Goal

module _ {E : Type 0} (c : Calls E) (conf : Config) (raw : Bytes) where
  -- Each call has succeeded.
  abbrev HasSucceeded : Type 0
  HasSucceeded = (g : Given) × (b : Built) × Prepared c conf raw g × Finished c conf raw g b
