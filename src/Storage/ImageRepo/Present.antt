-- ===== src/Storage/ImageRepo/Present.antt =====
-- When the repository is present after the call.
use builder.Base.{
  refl, Bytes, codes, ◌≡◌, ◌≢◌, ◌↔◌, [], Option, some, none, Bool, true, Result, ok, err, arith,
}
use builder.Maps.{Map, get}
use builder.Text.Equality.{eqb_iff}
use builder.Storage.ImageRepo.{created, configured, create_image_repo}

-- The repository has been made, or it was there.
abbrev pub IsPresent : {E : Type 0} → (E → Bool) → Option E → Type 0
IsPresent is_exists none = Unit
IsPresent is_exists (some e) = is_exists e ≡ true

created-IsPresent :
    {E : Type 0} (is_exists : E → Bool) (o : Option E)
    → (created is_exists o ≡ none) ↔ IsPresent is_exists o
unfolding created
created-IsPresent is_exists none = (λ h. tt, λ h. refl)
created-IsPresent is_exists (some e) = grind arith

configured-IsPresent :
    {C E : Type 0} (create_repository : C → Bytes → Option E) (is_exists : E → Bool)
    (reponame : Bytes) (r : Result E C)
    → (configured create_repository is_exists reponame r ≡ none)
      ↔ ((cfg : C) × (r ≡ ok cfg) × IsPresent is_exists (create_repository cfg reponame))
unfolding configured
configured-IsPresent create_repository is_exists reponame (err e) =
    (λ h. absurd (ground arith), λ h. absurd (err-ne-ok h.1))
  where
    err-ne-ok : {E C : Type 0} {e : E} {c : C} → err e ≢ ok c
    err-ne-ok h = ground arith
configured-IsPresent create_repository is_exists reponame (ok cfg) =
    let (forth, back) = created-IsPresent is_exists (create_repository cfg reponame) in
    (
      λ h. (cfg, refl, forth h),
      λ (d, same, present).
          grind (arith, same, created-IsPresent is_exists (create_repository d reponame)),
    )

-- The call succeeds exactly when there is a region, the client can be configured for it, and the repository
-- has been made or was there.
pub create_image_repo_lem :
    {C E : Type 0} (load_config : Bytes → Bytes → Bytes → Result E C)
    (create_repository : C → Bytes → Option E) (is_exists : E → Bool) (reponame : Bytes)
    (params : Map Bytes)
    → (create_image_repo load_config create_repository is_exists reponame params ≡ none) ↔ (
        (get (codes "region") params ≢ [])
        × ((cfg : C) × (load_config
                (get (codes "region") params)
                (get (codes "accesskey") params)
                (get (codes "secretkey") params)
              ≡ ok cfg)
            × IsPresent is_exists (create_repository cfg reponame)))
unfolding create_image_repo
create_image_repo_lem load_config create_repository is_exists reponame params = grind (
  arith,
  eqb_iff (get (codes "region") params) [],
  configured-IsPresent create_repository is_exists reponame (
      load_config (get (codes "region") params) (get (codes "accesskey") params)
        (get (codes "secretkey") params)),
)
