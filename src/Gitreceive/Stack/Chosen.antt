-- ===== src/Gitreceive/Stack/Chosen.antt =====
-- Which stack is chosen.
use builder.Base.{
  ap, length, ◌==◌, ◌∙◌, Bytes, codes, ◌≡◌, ◌≢◌, inl, refl, List, [], ◌∷◌, ◌++◌, All, some, none,
  Bool, true, false, if◌then◌else◌, arith,
}
use builder.Maps.{get}
use builder.Gitreceive.Stack.{
  Stack, ConfigValue, string, get_stack, choose, stack_name, find_stack, or_else, first_stack,
}
use builder.Gitreceive.Stack.Found.{
  IsText, is_choice, IsAmong, IsChosen, find_stack-IsChosen, stack_name-total, or_else-IsChosen,
  stack_name_last, find_stack_first, if-IsChosen, or_else_made, made,
}

module _ (exists : Bytes → Bool) (dir_name : Bytes) where
  choose-IsChosen :
      (first : Stack) (stacks : List Stack) (name : Bytes)
      → IsChosen (first ∷ stacks) (choose exists (first ∷ stacks) dir_name name)
  unfolding choose first_stack
  choose-IsChosen first stacks name =
      let all = first ∷ stacks in
      let found = λ (n : Bytes). find_stack-IsChosen n all in
      or_else-IsChosen all _ _ (found name) (
        or_else-IsChosen all _ _
          (if-IsChosen all (exists (dir_name ++ codes "/Dockerfile")) _ none
            (found (codes "container")) tt)
          (or_else-IsChosen all _ _
            (if-IsChosen all (exists (dir_name ++ codes "/Procfile")) _ _
              (found (codes "buildpack"))
              (if-IsChosen all (exists (dir_name ++ codes "/project.toml")) _ none
                (found (codes "buildpack")) tt))
            (inl refl)))

  choose-total :
      (first : Stack) (stacks : List Stack) (name : Bytes)
      → (s : Stack) × (choose exists (first ∷ stacks) dir_name name ≡ some s)
  unfolding choose first_stack
  choose-total first stacks name =
      let all = first ∷ stacks in
      let buildpack =
        if exists (dir_name ++ codes "/Procfile")
        then find_stack (codes "buildpack") all
        else if exists (dir_name ++ codes "/project.toml")
        then find_stack (codes "buildpack") all
        else none in
      let container =
        if exists (dir_name ++ codes "/Dockerfile")
        then find_stack (codes "container") all
        else none in
      let (s, e) = or_else_made buildpack (some first) first refl in
      let (t, f) = or_else_made container (or_else buildpack (some first)) s e in
      or_else_made (find_stack name all) (or_else container (or_else buildpack (some first))) t f

  get_stack_named :
      (stacks loaded : List Stack) (values : List ConfigValue) (name : Bytes)
      → stack_name values [] ≡ some name
      → get_stack exists stacks loaded dir_name values
        ≡ choose exists (if length stacks == 0 then loaded else stacks) dir_name name
  unfolding get_stack
  get_stack_named stacks loaded values name e = rw (e, get_stack)

  nonempty :
      (xs : List Stack) (s : Stack) (behind loaded : List Stack)
      → (if length (xs ++ s ∷ behind) == 0 then loaded else xs ++ s ∷ behind) ≡ xs ++ s ∷ behind
  nonempty [] s behind loaded = ground arith
  nonempty (x ∷ xs) s behind loaded = ground arith

  -- Where there is a stack and every configured value is a string, `getStack` does not panic, and returns
  -- one of the stacks.
  pub get_stack-total :
      (first : Stack) (stacks loaded : List Stack) (values : List ConfigValue)
      → All IsText values
      → (s : Stack) × (get_stack exists (first ∷ stacks) loaded dir_name values ≡ some s)
        × IsAmong s (first ∷ stacks)
  get_stack-total first stacks loaded values h =
      let (name, e) = stack_name-total values [] h in
      let (s, f) = choose-total first stacks name in
      let q =
        get_stack_named (first ∷ stacks) loaded values name e
        ∙ ap (λ (l : List Stack). choose exists l dir_name name) (nonempty [] first stacks loaded)
        ∙ f in
      (s, q, made (first ∷ stacks) _ s (choose-IsChosen first stacks name) f)

  -- The last global value named DRYCC_STACK decides, where it is a string and all values before it are: the
  -- first stack of the name it gives is chosen, whatever files the app has.
  pub get_stack-configured :
      (before after : List ConfigValue) (v : ConfigValue) (stacks behind loaded : List Stack)
      (s : Stack)
      → All IsText before
      → is_choice v ≡ true
      → v.value ≡ string (get (codes "name") s)
      → All (λ (w : ConfigValue). is_choice w ≡ false) after
      → All (λ (x : Stack). get (codes "name") x ≢ get (codes "name") s) stacks
      → get_stack exists (stacks ++ s ∷ behind) loaded dir_name (before ++ v ∷ after) ≡ some s
  get_stack-configured before after v stacks behind loaded s t c e h ne =
      get_stack_named (stacks ++ s ∷ behind) loaded (before ++ v ∷ after) (get (codes "name") s)
        (stack_name_last before after v (get (codes "name") s) [] t c e h)
      ∙ ap (λ (l : List Stack). choose exists l dir_name (get (codes "name") s))
          (nonempty stacks s behind loaded)
      ∙ choose_found (stacks ++ s ∷ behind) s (find_stack_first stacks behind s ne)
    where
      choose_found :
          (all : List Stack) (s : Stack)
          → find_stack (get (codes "name") s) all ≡ some s
          → choose exists all dir_name (get (codes "name") s) ≡ some s
      choose_found all s found = unfold choose or_else in rw (found, choose, or_else)
