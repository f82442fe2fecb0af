-- ===== src/Gitreceive/Stack/Found.antt =====
-- What the steps of the choice of a stack find.
use builder.Base.{
  ◌∙◌, Bool-cases, Bytes, codes, ◌≡◌, ◌≢◌, ◌⊎◌, inl, inr, refl, List, [], ◌∷◌, ◌++◌, All, Option,
  some, none, Bool, true, false, ◌&&◌, if◌then◌else◌, arith,
}
use builder.Maps.{get}
use builder.Text.Equality.{eqb, eqb_iff, eqb_refl}
use builder.Gitreceive.Stack.{Stack, ConfigValue, string, stack_name, find_stack, or_else}

abbrev pub IsText : ConfigValue → Type 0
IsText v = (s : Bytes) × (v.value ≡ string s)

abbrev pub is_choice : ConfigValue → Bool
is_choice v = eqb v.group (codes "global") && eqb v.name (codes "DRYCC_STACK")

abbrev pub IsAmong : Stack → List Stack → Type 0
IsAmong s [] = ⊥
IsAmong s (x ∷ xs) = (x ≡ s) ⊎ IsAmong s xs

-- One of the stacks, if there is one.
abbrev pub IsChosen : List Stack → Option Stack → Type 0
IsChosen stacks none = Unit
IsChosen stacks (some s) = IsAmong s stacks

pub find_stack-IsChosen :
    (name : Bytes) (stacks : List Stack) → IsChosen stacks (find_stack name stacks)
unfolding find_stack
find_stack-IsChosen name [] = tt
find_stack-IsChosen name (s ∷ stacks) = elim (Bool-cases (eqb (get (codes "name") s) name)) [
  | inl same ↦ rw (same, find_stack) (inl refl)
  | inr other_name ↦
      rw (other_name, find_stack)
        (weaken (find_stack name stacks) (find_stack-IsChosen name stacks))
]
  where
    weaken : (o : Option Stack) → IsChosen stacks o → IsChosen (s ∷ stacks) o
    weaken none h = tt
    weaken (some x) h = inr h

pub stack_name_choice :
    (v : ConfigValue) (values : List ConfigValue) (name chosen : Bytes)
    → is_choice v ≡ true
    → v.value ≡ string name
    → stack_name (v ∷ values) chosen ≡ stack_name values name
unfolding stack_name
stack_name_choice v values name chosen c e = rw (c, e)

pub stack_name_skip :
    (v : ConfigValue) (values : List ConfigValue) (chosen : Bytes)
    → is_choice v ≡ false
    → stack_name (v ∷ values) chosen ≡ stack_name values chosen
unfolding stack_name
stack_name_skip v values chosen c = rw c

pub stack_name-total :
    (values : List ConfigValue) (chosen : Bytes)
    → All IsText values
    → (name : Bytes) × (stack_name values chosen ≡ some name)
stack_name-total [] chosen h = (chosen, unfold stack_name in refl)
stack_name-total (v ∷ values) chosen h = elim (Bool-cases (is_choice v)) [
  | inl choice ↦
      let (name, e) = stack_name-total values h.0.0 h.1 in
      (name, stack_name_choice v values h.0.0 chosen choice h.0.1 ∙ e)
  | inr skip ↦
      let (name, e) = stack_name-total values chosen h.1 in
      (name, stack_name_skip v values chosen skip ∙ e)
]

pub or_else-IsChosen :
    (stacks : List Stack) (a b : Option Stack)
    → IsChosen stacks a
    → IsChosen stacks b
    → IsChosen stacks (or_else a b)
unfolding or_else
or_else-IsChosen stacks none b ha hb = hb
or_else-IsChosen stacks (some s) b ha hb = ha

pub stack_name_none :
    (values : List ConfigValue) (chosen : Bytes)
    → All (λ (w : ConfigValue). is_choice w ≡ false) values
    → stack_name values chosen ≡ some chosen
stack_name_none [] chosen h = unfold stack_name in refl
stack_name_none (w ∷ values) chosen h =
    stack_name_skip w values chosen h.0 ∙ stack_name_none values chosen h.1

pub stack_name_last :
    (before after : List ConfigValue) (v : ConfigValue) (name chosen : Bytes)
    → All IsText before
    → is_choice v ≡ true
    → v.value ≡ string name
    → All (λ (w : ConfigValue). is_choice w ≡ false) after
    → stack_name (before ++ v ∷ after) chosen ≡ some name
stack_name_last [] after v name chosen t c e h =
    stack_name_choice v after name chosen c e ∙ stack_name_none after name h
stack_name_last (w ∷ before) after v name chosen t c e h = elim (Bool-cases (is_choice w)) [
  | inl choice ↦
      stack_name_choice w (before ++ v ∷ after) t.0.0 chosen choice t.0.1
      ∙ stack_name_last before after v name t.0.0 t.1 c e h
  | inr skip ↦
      stack_name_skip w (before ++ v ∷ after) chosen skip
      ∙ stack_name_last before after v name chosen t.1 c e h
]

pub find_stack_first :
    (before after : List Stack) (s : Stack)
    → All (λ (x : Stack). get (codes "name") x ≢ get (codes "name") s) before
    → find_stack (get (codes "name") s) (before ++ s ∷ after) ≡ some s
unfolding find_stack
find_stack_first [] after s h = ground (arith, eqb_refl (get (codes "name") s))
find_stack_first (x ∷ before) after s h = ground (
  arith,
  eqb_iff (get (codes "name") x) (get (codes "name") s),
  find_stack_first before after s h.1,
)

pub if-IsChosen :
    (stacks : List Stack) (b : Bool) (x y : Option Stack)
    → IsChosen stacks x
    → IsChosen stacks y
    → IsChosen stacks (if b then x else y)
if-IsChosen stacks true x y hx hy = hx
if-IsChosen stacks false x y hx hy = hy

-- A choice that has a last resort is made.
pub or_else_made :
    (a b : Option Stack) (s : Stack) → b ≡ some s → (t : Stack) × (or_else a b ≡ some t)
unfolding or_else
or_else_made none b s e = (s, e)
or_else_made (some t) b s e = (t, refl)

pub made :
    (stacks : List Stack) (o : Option Stack) (s : Stack)
    → IsChosen stacks o
    → o ≡ some s
    → IsAmong s stacks
made stacks o s h e = let h' : IsChosen stacks (some s) = rw e at h in h'
