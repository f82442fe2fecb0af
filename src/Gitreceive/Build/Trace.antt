-- ===== src/Gitreceive/Build/Trace.antt =====
-- Lists of actions that go through stages in their order.
use builder.Base.{◌≡◌, ◌⊎◌, inl, inr, refl, List, [], ◌∷◌, All, Option, some, none}
use builder.Gitreceive.Build.{Outcome, done, Action, Run, perform}

-- What the action of a stage is, and that its call succeeds.
abbrev pub Stage : Type 1
Stage = (Action → Type 0) × Type 0

-- The actions are of the stages, from the first one on and in their order; none follows one whose call
-- has failed; and a run that ends well has an action of each stage, of which each has succeeded.
pub IsTrace : {E : Type 0} → List Stage → List Action → Outcome E → Type 0
IsTrace [] [] o = Unit
IsTrace [] (a ∷ actions) o = ⊥
IsTrace (stage ∷ stages) [] o = ¬ (o ≡ done)
IsTrace (stage ∷ stages) (a ∷ actions) o =
    stage.0 a × (((¬ (o ≡ done)) × (actions ≡ [])) ⊎ (stage.1 × IsTrace stages actions o))

module _ {E : Type 0} where
  pub early-IsTrace : (stages : List Stage) (o : Outcome E) → ¬ (o ≡ done) → IsTrace stages [] o
  unfolding IsTrace
  early-IsTrace [] o h = tt
  early-IsTrace (stage ∷ stages) o h = h

  pub end-IsTrace : (o : Outcome E) → IsTrace [] [] o
  unfolding IsTrace
  end-IsTrace o = tt

  -- The action of a call that succeeds where it gives no error.
  pub perform-IsTrace :
      (P : Action → Type 0) (stages : List Stage) (action : Action) (o : Option E) (rest : Run E)
      → P action
      → (o ≡ none → IsTrace stages rest.0 rest.1)
      → IsTrace ((P, o ≡ none) ∷ stages) (perform action o rest).0 (perform action o rest).1
  unfolding perform IsTrace
  perform-IsTrace P stages action none rest p h = (p, inr (refl, h refl))
  perform-IsTrace P stages action (some e) rest p h = (p, inl (λ d. cc, refl))

-- An action of any of the stages has the property `Q`.
abbrev pub Each : (Action → Type 0) → List Stage → Type 0
Each Q [] = Unit
Each Q (stage ∷ stages) = ((a : Action) → stage.0 a → Q a) × Each Q stages

pub IsTrace-All :
    {E : Type 0} (Q : Action → Type 0) (stages : List Stage) (actions : List Action) (o : Outcome E)
    → Each Q stages
    → IsTrace stages actions o
    → All Q actions
unfolding IsTrace
IsTrace-All Q stages [] o each trace = tt
IsTrace-All Q [] (a ∷ actions) o each trace = absurd trace
IsTrace-All Q (stage ∷ stages) (a ∷ []) o (holds, each) (p, rest) = (holds a p, tt)
IsTrace-All Q (stage ∷ stages) (a ∷ b ∷ actions) o (holds, each) (p, inl (fails, ends)) =
    absurd (cc (ends))
IsTrace-All Q (stage ∷ stages) (a ∷ b ∷ actions) o (holds, each) (p, inr (fine, trace)) =
    (holds a p, IsTrace-All Q stages (b ∷ actions) o each trace)
