-- ===== src/Gitreceive/Stack.antt =====
-- pkg/gitreceive/build_type.go: the stack that an app is built with. `json.Unmarshal` is a parameter, and
-- so are the reading of a file and the test whether a file exists.
pub mod Found
pub mod Chosen
use builder.Base.{
  length, ◌==◌, ◌++◌, Bool, Bytes, codes, List, [], ◌∷◌, Option, some, none, Result, ok, err, ◌&&◌,
  if◌then◌else◌,
}
use builder.Maps.{Map, get}
use builder.Text.Equality.{eqb}

-- The `Value` of a configuration value, an `any`: a string, or a value that is no string, of which only
-- the text that `%v` prints is kept.
pub data Value : Type 0 where
  string : Bytes → Value
  other : (printed : Bytes) → Value

-- api.ConfigValue
pub record ConfigValue : Type 0 where
  pub group : Bytes
  pub name : Bytes
  pub value : Value

abbrev pub Stack : Type 0
Stack = Map Bytes

abbrev pub default_stacks : Bytes
default_stacks =
    codes
      "[\n\t{\n        \"name\": \"buildpack\",\n        \"image\": \"registry.drycc.cc/drycc/imagebuilder:canary\"\n    },\n    {\n        \"name\": \"container\",\n        \"image\": \"registry.drycc.cc/drycc/imagebuilder:canary\"\n    }\n\n]"

-- `initStack`: what `Stacks` becomes, and the error.
unfoldable pub init_stack :
    {E : Type 0}
    → (Bytes → List Stack × Option E)
    → (Bytes → Result E Bytes)
    → List Stack × Option E
init_stack unmarshal read_file = elim (read_file (codes "/etc/imagebuilder/images.json")) [
  | ok text ↦ unmarshal text
  | err e ↦ unmarshal default_stacks
]

-- The first loop of `getStack`: a later value replaces an earlier one, and a value that is no string is a
-- panic.
pub stack_name : List ConfigValue → Bytes → Option Bytes
stack_name [] chosen = some chosen
stack_name (v ∷ values) chosen =
    let kept = stack_name values chosen in
    if eqb v.group (codes "global") && eqb v.name (codes "DRYCC_STACK")
    then elim v.value [ string s ↦ stack_name values s | other printed ↦ none ]
    else kept

-- A loop over the stacks for one of a name.
pub find_stack : Bytes → List Stack → Option Stack
find_stack name [] = none
find_stack name (stack ∷ stacks) =
    let rest = find_stack name stacks in
    if eqb (get (codes "name") stack) name then some stack else rest

-- Stacks[0], a panic where there is none
pub first_stack : List Stack → Option Stack
first_stack [] = none
first_stack (stack ∷ stacks) = some stack

-- A loop that returns, or goes on with what follows it.
pub or_else : Option Stack → Option Stack → Option Stack
or_else (some stack) rest = some stack
or_else none rest = rest

-- What follows the first loop.
pub choose : (Bytes → Bool) → List Stack → Bytes → Bytes → Option Stack
unfolding find_stack first_stack or_else
choose exists stacks dir_name name =
    let buildpack =
      if exists (dir_name ++ codes "/Procfile")
      then find_stack (codes "buildpack") stacks
      else if exists (dir_name ++ codes "/project.toml")
      then find_stack (codes "buildpack") stacks
      else none in
    or_else (find_stack name stacks) (
      or_else
        (if exists (dir_name ++ codes "/Dockerfile")
          then find_stack (codes "container") stacks
          else none)
        (or_else buildpack (first_stack stacks)))

-- `getStack`, where `stacks` is `Stacks` at its start and `loaded` what `initStack` leaves in it; `exists`
-- says whether `os.Stat` succeeds. `none` is a panic.
unfoldable pub get_stack :
    (Bytes → Bool) → List Stack → List Stack → Bytes → List ConfigValue → Option Stack
unfolding stack_name choose
get_stack exists stacks loaded dir_name values = elim (stack_name values []) [
  | none ↦ none
  | some name ↦ choose exists (if length stacks == 0 then loaded else stacks) dir_name name
]
