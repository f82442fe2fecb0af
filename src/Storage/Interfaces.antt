-- ===== src/Storage/Interfaces.antt =====
-- pkg/storage/interfaces.go: the parts of a storage driver that are used, and the fakes that stand for them
-- in unit tests. A fake's function may change what it closes over, a world `W`.
use builder.Base.{Bytes, List, [], ◌∷◌, ◌++◌, Result}
use builder.Storage.Object.{StatError}

pub record ObjectStatter (W E F : Type 0) : Type 0 where
  pub stat : Bytes → W → W × Result (StatError E) F

pub record FakeStatObjectCall : Type 0 where
  pub path : Bytes

pub record FakeObjectStatter (W E F : Type 0) : Type 0 where
  pub fn : Bytes → W → W × Result (StatError E) F
  pub calls : List FakeStatObjectCall

-- `FakeObjectStatter` as an `ObjectStatter`: `Stat` records the call and hands it on.
unfoldable pub fake_object_statter :
    {W E F : Type 0} → ObjectStatter (FakeObjectStatter W E F × W) E F
fake_object_statter = record {
  stat = λ path state.
      let (w, answer) = state.0.fn path state.1 in
      ((record state.0 { calls = state.0.calls ++ record { path = path } ∷ [] }, w), answer);
}

pub record ObjectGetter (W E : Type 0) : Type 0 where
  pub get_content : Bytes → W → W × Result E Bytes

pub record FakeGetObjectCall : Type 0 where
  pub path : Bytes

pub record FakeObjectGetter (W E : Type 0) : Type 0 where
  pub fn : Bytes → W → W × Result E Bytes
  pub calls : List FakeGetObjectCall

-- `FakeObjectGetter` as an `ObjectGetter`
unfoldable pub fake_object_getter : {W E : Type 0} → ObjectGetter (FakeObjectGetter W E × W) E
fake_object_getter = record {
  get_content = λ path state.
      let (w, answer) = state.0.fn path state.1 in
      ((record state.0 { calls = state.0.calls ++ record { path = path } ∷ [] }, w), answer);
}
