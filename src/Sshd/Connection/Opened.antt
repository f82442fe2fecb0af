-- ===== src/Sshd/Connection/Opened.antt =====
-- Which channels of a connection are answered.
use builder.Base.{
  Result, arith, Bytes, codes, true, false, List, [], ◌∷◌, ◌++◌, map, Option, some, none, ok, err,
  ◌≡◌, refl,
}
use builder.Text.Equality.{eqb}
use builder.Maps.{Map}
use builder.Sshd.Server.{Request}
use builder.Sshd.Connection.{
  NewChannel, Handshake, Conn, ConnEffect, rejected, answering, conn_closed, ssh_connection,
  handle_channels, handle_conn,
}

-- A channel that the client opens as a session, and that can be accepted; its requests.
pub record Session : Type 0 where
  pub requests : List Request

abbrev pub session_channel : {E : Type 0} → Session → NewChannel E
session_channel s = record { channel_type = codes "session"; accept = λ decided. ok s.requests }

-- A channel of another type. As the ssh package documents, a channel that is rejected is decided on, and
-- accepting it fails.
abbrev pub IsOther : {E : Type 0} → NewChannel E → E → Type 0
IsOther ch e = (eqb ch.channel_type (codes "session") ≡ false) × (ch.accept true ≡ err e)

-- A session that cannot be accepted.
abbrev pub IsRefused : {E : Type 0} → NewChannel E → E → Type 0
IsRefused ch e = (eqb ch.channel_type (codes "session") ≡ true) × (ch.accept false ≡ err e)

abbrev pub answer_of : Bytes → Map Bytes → Session → ConnEffect
answer_of condata extensions s = answering s.requests condata extensions

module _ {E : Type 0} (condata : Bytes) (extensions : Map Bytes) where
  other_panics :
      (ch : NewChannel E) (e : E) (rest : List (NewChannel E))
      → IsOther ch e
      → handle_channels condata extensions (ch ∷ rest) ≡ (rejected ∷ [], some e)
  unfolding handle_channels
  other_panics ch e rest h = rw (h.0, h.1, handle_channels) (rw h.0)

  sessions_only :
      (sessions : List Session)
      → handle_channels {E = E} condata extensions (map session_channel sessions)
        ≡ (map (answer_of condata extensions) sessions, none)
  unfolding handle_channels eqb
  sessions_only [] = refl
  sessions_only (s ∷ sessions) = rw (sessions_only sessions)

  sessions_then_other :
      (sessions : List Session) (ch : NewChannel E) (e : E) (rest : List (NewChannel E))
      → IsOther ch e
      → handle_channels condata extensions (map session_channel sessions ++ ch ∷ rest)
        ≡ (map (answer_of condata extensions) sessions ++ rejected ∷ [], some e)
  unfolding handle_channels eqb
  sessions_then_other [] ch e rest h = other_panics ch e rest h
  sessions_then_other (s ∷ sessions) ch e rest h = rw (sessions_then_other sessions ch e rest h)

  sessions_then_refused :
      (sessions : List Session) (ch : NewChannel E) (e : E) (rest : List (NewChannel E))
      → IsRefused ch e
      → handle_channels condata extensions (map session_channel sessions ++ ch ∷ rest)
        ≡ (map (answer_of condata extensions) sessions, some e)
  unfolding handle_channels eqb
  sessions_then_refused [] ch e rest h = rw (h.0, h.1, handle_channels) (rw h.0)
  sessions_then_refused (s ∷ sessions) ch e rest h = rw (sessions_then_refused sessions ch e rest h)

-- The calls of `Close`: the deferred one, after that at the end of the function.
abbrev pub closes : {E : Type 0} → Option E → List ConnEffect
closes none = conn_closed ∷ conn_closed ∷ []
closes (some e) = conn_closed ∷ []

module _ {E : Type 0} (split_host_port : Bytes → Bytes × Bytes) (conn : Conn E) where
  pub after_handshake :
      (shaken : Handshake E) (r : List ConnEffect × Option E)
      → conn.handshake ≡ ok shaken
      → handle_channels
          (ssh_connection split_host_port conn.remote_addr conn.local_addr)
          shaken.extensions
          shaken.channels
        ≡ r
      → handle_conn split_host_port conn ≡ (r.0 ++ closes r.1, r.1)
  unfolding handle_conn
  after_handshake shaken r h e = ground arith

abbrev pub shaken : {E : Type 0} → Map Bytes → List (NewChannel E) → Handshake E
shaken extensions channels = record { extensions = extensions; channels = channels }

module _ {E : Type 0} (split_host_port : Bytes → Bytes × Bytes) (remote local : Bytes) where
  -- A connection between these addresses.
  abbrev pub conn_with : Result E (Handshake E) → Conn E
  conn_with handshake = record { remote_addr = remote; local_addr = local; handshake = handshake }

  -- A connection whose handshake fails is closed, and nothing else is done. One that opens sessions only,
  -- all of which can be accepted, has each of them answered, in order, with the addresses of the
  -- connection and the permissions of its handshake, and is closed. The first session that cannot be
  -- accepted ends the program in a panic, after the sessions before it are answered. And where accepting a
  -- rejected channel fails, so does the first channel that is no session, which is rejected before.
  pub handle_conn_lem :
      (failure e f : E) (extensions : Map Bytes) (sessions : List Session)
      (other refused : NewChannel E) (rest : List (NewChannel E))
      → IsOther other e
      → IsRefused refused f
      → (handle_conn split_host_port (conn_with (err failure)) ≡ (conn_closed ∷ [], none))
        × (handle_conn split_host_port (
              conn_with
                (ok (record { extensions = extensions; channels = map session_channel sessions })))
            ≡ (
              map (answer_of (ssh_connection split_host_port remote local) extensions) sessions
                  ++ conn_closed ∷ conn_closed ∷ [],
              none,
            ))
        × (handle_conn split_host_port (
              conn_with (
                ok (record {
                  extensions = extensions;
                  channels = map session_channel sessions ++ refused ∷ rest;
                })))
            ≡ (
              map (answer_of (ssh_connection split_host_port remote local) extensions) sessions
                  ++ conn_closed ∷ [],
              some f,
            ))
        × (handle_conn split_host_port (
              conn_with (
                ok (record {
                  extensions = extensions;
                  channels = map session_channel sessions ++ other ∷ rest;
                })))
            ≡ (
              (map (answer_of (ssh_connection split_host_port remote local) extensions) sessions
                    ++ rejected ∷ [])
                  ++ conn_closed ∷ [],
              some e,
            ))
  unfolding handle_conn
  handle_conn_lem failure e f extensions sessions other refused rest h k = (
    refl,
    after_handshake split_host_port (conn_with _) (shaken extensions (map session_channel sessions))
        _ refl (sessions_only (ssh_connection split_host_port remote local) extensions sessions),
    after_handshake split_host_port (conn_with _)
        (shaken extensions (map session_channel sessions ++ refused ∷ rest)) _ refl
        (sessions_then_refused (ssh_connection split_host_port remote local) extensions sessions
          refused f rest k),
    after_handshake split_host_port (conn_with _)
        (shaken extensions (map session_channel sessions ++ other ∷ rest)) _ refl
        (sessions_then_other (ssh_connection split_host_port remote local) extensions sessions other
          e rest h),
  )
