-- ===== src/Sshd/Connection/Authenticated.antt =====
-- From the key of a connection to the pushes of its channels.
use builder.Base.{
  All-if, Bytes, codes, Bool, true, not, List, [], ◌∷◌, ◌++◌, Option, some, none, ok, ◌≡◌, refl,
  All, All-append, Result-cases, inl, inr, if◌then◌else◌,
}
use builder.Text.{contains, join}
use builder.Text.Equality.{eqb}
use builder.Maps.{Map, get, lookup}
use builder.Controller.{Client}
use builder.Sshd.Auth.{UserInfo, permissions, auth_key}
use builder.Sshd.Auth.Accepted.{auth_key_lem}
use builder.Sshd.Lock.{InMemoryRepoLock}
use builder.Sshd.Server.{
  Server, ReceiveCall, Timing, Effect, received, replied, wrote, wrote_stderr, sent_exit_status,
  closed, answer,
}
use builder.Sshd.Server.Access.{IsAllowed, answer-IsAllowed}
use builder.Sshd.Connection.Opened.{closes, after_handshake, conn_with, shaken}
use builder.Sshd.Connection.{
  NewChannel, Handshake, Conn, ConnEffect, rejected, answering, ssh_connection, handle_channels,
  handle_conn,
}

-- A call of `git.Receive` for this user, with the key of this fingerprint: for the repository of a name
-- that stands in the text of the user's apps.
abbrev pub IsOf : UserInfo → Bytes → Effect → Type 0
IsOf user fp (received c) =
    (name : Bytes) × (c.repo ≡ name ++ codes ".git")
    × (contains (join user.apps (codes ", ")) name ≡ true)
    × (c.username ≡ user.username)
    × (c.fingerprint ≡ fp)
IsOf user fp _ = Unit

module _ {E : Type 0} (s : Server) (unmarshal : Bytes → Bytes) (receive : ReceiveCall → Option E)
    (user : UserInfo) (fp : Bytes) where
  effects-IsOf :
      (condata : Bytes) (effects : List Effect)
      → All (IsAllowed s (permissions user fp) condata unmarshal receive) effects
      → All (IsOf user fp) effects
  unfolding permissions get lookup eqb
  effects-IsOf condata [] h = tt
  effects-IsOf condata (received c ∷ effects) h = (h.0, effects-IsOf condata effects h.1)
  effects-IsOf condata (replied b ∷ effects) h = (tt, effects-IsOf condata effects h.1)
  effects-IsOf condata (wrote b ∷ effects) h = (tt, effects-IsOf condata effects h.1)
  effects-IsOf condata (wrote_stderr b ∷ effects) h = (tt, effects-IsOf condata effects h.1)
  effects-IsOf condata (sent_exit_status n ∷ effects) h = (tt, effects-IsOf condata effects h.1)
  effects-IsOf condata (closed ∷ effects) h = (tt, effects-IsOf condata effects h.1)

  -- Whatever the state of the lock and the timing, the answer to a channel only pushes for the user.
  abbrev pub AnswersAs : ConnEffect → Type 0
  AnswersAs (answering requests condata extensions) =
      (rl : InMemoryRepoLock) (timing : Timing)
      → All (IsOf user fp) (answer s extensions condata unmarshal receive rl timing requests).1
  AnswersAs _ = Unit

  handle_channels-AnswersAs :
      {F : Type 0} (condata : Bytes) (chans : List (NewChannel F))
      → All AnswersAs (handle_channels condata (permissions user fp) chans).0
  unfolding handle_channels
  handle_channels-AnswersAs condata [] = tt
  handle_channels-AnswersAs condata (incoming ∷ chans) =
      let is_other = not (eqb incoming.channel_type (codes "session")) in
      let refusal : All AnswersAs (if is_other then rejected ∷ [] else []) =
        All-if AnswersAs is_other (rejected ∷ []) [] (λ _. (tt, tt)) (λ _. tt) in
      elim (Result-cases (incoming.accept is_other)) [
        | inl (e, bad) ↦ rw (bad, handle_channels) refusal
        | inr (requests, good) ↦
            rw (good, handle_channels)
              (All-append AnswersAs _ _ refusal (
                λ rl timing. effects-IsOf condata _ (
                    answer-IsAllowed s (permissions user fp) condata unmarshal receive rl timing
                      requests),
                handle_channels-AnswersAs condata chans,
              ))
      ]

  handle_conn-AnswersAs :
      {F : Type 0} (split_host_port : Bytes → Bytes × Bytes) (conn : Conn F) (shaken : Handshake F)
      → conn.handshake ≡ ok shaken
      → shaken.extensions ≡ permissions user fp
      → All AnswersAs (handle_conn split_host_port conn).0
  handle_conn-AnswersAs {F} split_host_port conn shaken h e =
      rw (after_handshake split_host_port conn shaken _ h refl) (
        All-append AnswersAs _ _
          (rw e (
            handle_channels-AnswersAs
              (ssh_connection split_host_port conn.remote_addr conn.local_addr) shaken.channels))
          (closes-AnswersAs
            (handle_channels (ssh_connection split_host_port conn.remote_addr conn.local_addr)
              shaken.extensions shaken.channels).1))
    where
      closes-AnswersAs : (o : Option F) → All AnswersAs (closes o)
      closes-AnswersAs none = (tt, (tt, tt))
      closes-AnswersAs (some f) = (tt, tt)

module _ {C E F G : Type 0} (s : Server) (unmarshal : Bytes → Bytes)
    (receive : ReceiveCall → Option E) (split_host_port : Bytes → Bytes × Bytes)
    (is_api_mismatch : F → Bool) (user_from_key : Client C → Bytes → UserInfo × Option F) where
  -- On a connection whose handshake carries the permissions that `AuthKey` gave for a key: whatever the
  -- channels and their requests, and whatever the lock and the timing, each call of `git.Receive` is as
  -- the user whom the controller named for the key's fingerprint, with that fingerprint, and for the
  -- repository of a name that stands in the text of that user's apps.
  pub auth_key-AnswersAs :
      (client : Client C) (failure : Option F) (fp : Bytes) (extensions : Map Bytes)
      (channels : List (NewChannel G)) (remote local : Bytes)
      → auth_key is_api_mismatch user_from_key (client, failure) fp ≡ ok extensions
      → All
          (AnswersAs s unmarshal receive (user_from_key client fp).0 fp)
          (handle_conn split_host_port
            (conn_with split_host_port remote local (ok (shaken extensions channels)))).0
  auth_key-AnswersAs client failure fp extensions channels remote local h =
      handle_conn-AnswersAs s unmarshal receive (user_from_key client fp).0 fp split_host_port
        (conn_with split_host_port remote local (ok (shaken extensions channels)))
        (shaken extensions channels) refl
        ((auth_key_lem is_api_mismatch user_from_key client failure fp extensions).0 h).2
