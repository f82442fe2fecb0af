-- ===== src/Sshd/Connection.antt =====
-- `handleConn` and `sshConnection` of pkg/sshd/server.go: one connection, from its handshake to its last
-- channel. The handshake, and whether a channel can be accepted, are the ssh package's: arguments of the
-- model. What the server does on the connection is a list of effects; `answer` runs in its own goroutine.
pub mod Opened
pub mod Authenticated
mod Examples
use builder.Base.{
  Bytes, codes, not, List, [], ◌∷◌, ◌++◌, Bool, true, false, Option, some, none, Result, ok, err,
  if◌then◌else◌,
}
use builder.Text.Equality.{eqb}
use builder.Maps.{Map}
use builder.Sshd.Server.{Request}

-- ssh.NewChannel. `accept` is what `Accept` gives, where its argument says whether `Reject` was called
-- before: the requests that come in on the channel, or an error.
pub record NewChannel (E : Type 0) : Type 0 where
  pub channel_type : Bytes
  pub accept : Bool → Result E (List Request)

-- What a connection that is done a handshake with carries: the extensions of its permissions, and the
-- channels that the client opens.
pub record Handshake (E : Type 0) : Type 0 where
  pub extensions : Map Bytes
  pub channels : List (NewChannel E)

-- net.Conn: the texts of its two addresses, and what `ssh.NewServerConn` makes of it.
pub record Conn (E : Type 0) : Type 0 where
  pub remote_addr : Bytes
  pub local_addr : Bytes
  pub handshake : Result E (Handshake E)

pub data ConnEffect : Type 0 where
  -- incoming.Reject
  rejected : ConnEffect
  -- go s.answer
  answering : (requests : List Request) (condata : Bytes) (extensions : Map Bytes) → ConnEffect
  -- conn.Close
  conn_closed : ConnEffect

-- `split_host_port` is `net.SplitHostPort`, whose error is not looked at.
unfoldable pub ssh_connection : (Bytes → Bytes × Bytes) → Bytes → Bytes → Bytes
ssh_connection split_host_port remote local =
    let (rhost, rport) = split_host_port remote in
    let (lhost, lport) = split_host_port local in
    rhost ++ (codes " " ++ (rport ++ (codes " " ++ (lhost ++ (codes " " ++ lport)))))

module _ {E : Type 0} where
  -- The loop over the channels. An error of `Accept` is a panic, which ends the whole program.
  pub handle_channels : Bytes → Map Bytes → List (NewChannel E) → List ConnEffect × Option E
  handle_channels condata extensions [] = ([], none)
  handle_channels condata extensions (incoming ∷ chans) =
      let (effects, panicked) = handle_channels condata extensions chans in
      let is_other = not (eqb incoming.channel_type (codes "session")) in
      let refusal = if is_other then rejected ∷ [] else [] in
      elim (incoming.accept is_other) [
        | err e ↦ (refusal, some e)
        | ok requests ↦ (refusal ++ answering requests condata extensions ∷ effects, panicked)
      ]

  -- `handleConn`, whose global requests are discarded: what it does, and the error that it panics with, if it does. The deferred `conn.Close()`
  -- runs last, in a panic too.
  unfoldable pub handle_conn : (Bytes → Bytes × Bytes) → Conn E → List ConnEffect × Option E
  unfolding handle_channels ssh_connection
  handle_conn split_host_port conn = elim conn.handshake [
    | err e ↦ (conn_closed ∷ [], none)
    | ok shaken ↦
        let condata = ssh_connection split_host_port conn.remote_addr conn.local_addr in
        let (effects, panicked) = handle_channels condata shaken.extensions shaken.channels in
        elim panicked [
          | some e ↦ (effects ++ conn_closed ∷ [], some e)
          | none ↦ (effects ++ conn_closed ∷ conn_closed ∷ [], none)
        ]
  ]
