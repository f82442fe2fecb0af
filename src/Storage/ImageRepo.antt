-- ===== src/Storage/ImageRepo.antt =====
-- pkg/storage/image_repo.go: the image's repository in the registry. The client library is a parameter.
pub mod Present
use builder.Base.{Bytes, codes, Bool, [], Option, some, none, Result, ok, err, if◌then◌else◌}
use builder.Maps.{Map, get}
use builder.Text.Equality.{eqb}

pub data RepoError (E : Type 0) : Type 0 where
  -- "no region parameter provided: %s"
  no_region : (region_name : Bytes) → RepoError E
  client_failed : E → RepoError E

-- What follows the call of the client: that the repository is there already is no error.
created : {E : Type 0} → (E → Bool) → Option E → Option (RepoError E)
created is_exists none = none
created is_exists (some e) = if is_exists e then none else some (client_failed e)

-- What follows the configuration of the client.
configured :
    {C E : Type 0} → (C → Bytes → Option E) → (E → Bool) → Bytes → Result E C → Option (RepoError E)
unfolding created
configured create_repository is_exists reponame (err e) = some (client_failed e)
configured create_repository is_exists reponame (ok cfg) =
    created is_exists (create_repository cfg reponame)

-- `CreateImageRepo`: `load_config` is `config.LoadDefaultConfig` for a region, an access key and a secret
-- key, `create_repository` the call of that name, and `is_exists` the test for
-- `RepositoryAlreadyExistsException`. A missing key is the same as an empty text.
unfoldable pub create_image_repo :
    {C E : Type 0}
    → (Bytes → Bytes → Bytes → Result E C)
    → (C → Bytes → Option E)
    → (E → Bool)
    → Bytes
    → Map Bytes
    → Option (RepoError E)
unfolding configured
create_image_repo load_config create_repository is_exists reponame params =
    let region = get (codes "region") params in
    if eqb region []
    then some (no_region region)
    else configured create_repository is_exists reponame
        (load_config region (get (codes "accesskey") params) (get (codes "secretkey") params))
