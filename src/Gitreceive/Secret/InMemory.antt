-- ===== src/Gitreceive/Secret/InMemory.antt =====
-- A store of secrets in memory, and the laws for it. As in a cluster, a secret without a name is refused, and
-- so is a change of a secret's type and any change of one that is immutable.
use builder.Base.{
  Bytes, Bool, true, false, not, ◌||◌, [], Option, some, none, ◌≡◌, ◌≢◌, ◌⊎◌, refl, inl, inr,
  Bool-cases, Option-cases, if◌then◌else◌,
}
use builder.Text.Equality.{eqb, eqb_refl}
use builder.Maps.{Map, lookup, insert, lookup-insert}
use builder.Gitreceive.Secret.{Secret, SecretsClient}
use builder.Gitreceive.Secret.Upserted.{IsLawful}

-- The errors of the store.
pub data StoreError : Type 0 where
  already_exists not_found invalid : StoreError

abbrev is_already_exists : StoreError → Bool
is_already_exists already_exists = true
is_already_exists _ = false

-- A secret may not take the place of the one that there is.
abbrev is_forbidden : Secret → Secret → Bool
is_forbidden old x = old.immutable || not (eqb old.type x.type)

create_in : Secret → Map Secret → Map Secret × Option StoreError
create_in x w = if eqb x.name [] then (w, some invalid) else elim (lookup x.name w) [
  | none ↦ (insert x.name x w, none)
  | some y ↦ (w, some already_exists)
]

update_in : Secret → Map Secret → Map Secret × Option StoreError
update_in x w = elim (lookup x.name w) [
  | none ↦ (w, some not_found)
  | some y ↦ if is_forbidden y x then (w, some invalid) else (insert x.name x w, none)
]

unfoldable pub in_memory : SecretsClient (Map Secret) StoreError
unfolding create_in update_in
in_memory = record { create = create_in; update = update_in; is_already_exists = is_already_exists }

-- A call either fails and changes nothing, or puts the secret in.
IsPut : Secret → Map Secret → Map Secret × Option StoreError → Type 0
IsPut x w r = ((r.0 ≡ w) × (r.1 ≢ none)) ⊎ ((r.0 ≡ insert x.name x w) × (r.1 ≡ none))

create_in_lem : (x : Secret) (w : Map Secret) → IsPut x w (create_in x w)
unfolding create_in IsPut
create_in_lem x w = elim (Bool-cases (eqb x.name [])) [
  | inl nameless ↦ rw (nameless, create_in) (inl (refl, λ h. cc))
  | inr named ↦ elim (Option-cases (lookup x.name w)) [
    | inl new ↦ rw (named, new, create_in) (inr (refl, refl))
    | inr (y, old) ↦ rw (named, old, create_in) (inl (refl, λ h. cc))
  ]
]

update_in_lem : (x : Secret) (w : Map Secret) → IsPut x w (update_in x w)
unfolding update_in IsPut
update_in_lem x w = elim (Option-cases (lookup x.name w)) [
  | inl new ↦ rw (new, update_in) (inl (refl, λ h. cc))
  | inr (y, old) ↦ elim (Bool-cases (is_forbidden y x)) [
    | inl forbidden ↦ rw (old, update_in) (rw (forbidden) (inl (refl, λ h. cc)))
    | inr allowed ↦ rw (old, update_in) (rw (allowed) (inr (refl, refl)))
  ]
]

put_lem :
    (x : Secret) (w : Map Secret) (r : Map Secret × Option StoreError)
    → IsPut x w r
    → r.1 ≡ none
    → lookup x.name r.0 ≡ some x
unfolding IsPut
put_lem x w r (inl (same, fails)) h = absurd (fails h)
put_lem x w r (inr (puts, fine)) h =
    rw (puts) (rw (lookup-insert x.name x.name x w, eqb_refl x.name))

other_lem :
    (x : Secret) (n : Bytes) (w : Map Secret) (r : Map Secret × Option StoreError)
    → IsPut x w r
    → eqb x.name n ≡ false
    → lookup n r.0 ≡ lookup n w
unfolding IsPut
other_lem x n w r (inl (same, fails)) h = rw (same)
other_lem x n w r (inr (puts, fine)) h = rw (puts) (rw (lookup-insert x.name n x w, h))

pub in_memory-IsLawful : IsLawful in_memory lookup
unfolding in_memory
in_memory-IsLawful = record {
  created = λ x w. put_lem x w (create_in x w) (create_in_lem x w);
  updated = λ x w. put_lem x w (update_in x w) (update_in_lem x w);
  create_other = λ x n w. other_lem x n w (create_in x w) (create_in_lem x w);
  update_other = λ x n w. other_lem x n w (update_in x w) (update_in_lem x w);
}
