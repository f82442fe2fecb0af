-- ===== src/Lib.antt =====
-- A model of drycc builder: the SSH server that accepts git pushes, the git-receive hook that builds what
-- has been pushed, and the processes beside them.
--
-- How the parts work together. The server command (Boot) starts the probes, the cleaner and the SSH
-- server, which listens (Sshd/Listener), closes its circuit and handles connections (Sshd/Connection). A
-- key is authenticated with the controller (Sshd/Auth, Controller, Conf), which gives the connection the
-- texts of its user, its fingerprint and its apps. The requests of a channel are then answered
-- (Sshd/Server): a git command is cleaned (Sshd/Names), its repository is locked (Sshd/Lock, Sshd/Wrap),
-- and `git.Receive` is called. The hook that git runs (Boot, again) reads the changes of references and
-- builds each (Gitreceive). The cleaner deletes what is left of apps that are gone (Cleaner), and the
-- probes report the circuit of the SSH server and the store (Healthsrv, Sshd/Circuit).
--
-- The files, and what they model. A Go function `fooBar` is `foo_bar` here.
-- Base, Text, Maps: the libraries' names passed on, signed integers, results; Go's package strings on byte
--   strings; Go's maps as association lists.
-- Conf, Controller: pkg/conf/config.go and pkg/controller/utils.go.
-- Sshd/Circuit: pkg/sshd/circuit.go. A compare-and-swap is one step, so goroutines are a list of calls.
-- Sshd/Lock, Sshd/Wrap: pkg/sshd/lock.go. The two methods are atomic steps on the map, under its mutex;
--   `wrapInLock` is a step relation over any number of calls, each with its goroutine and its timer.
-- Sshd/Names: `cleanExec`, `cleanRepoName` and `gitPktLine` of pkg/sshd/server.go, and pkg/sshd/util.go.
-- Sshd/Auth, Sshd/Server: `AuthKey`, `answer`, `runReceive` and `Ping` of pkg/sshd/server.go. What is done
--   on a channel is a list of effects.
-- Sshd/Connection, /Listener, /Config: `handleConn`; `Configure`, `Serve` and `listen`; and
--   pkg/sshd/config.go. A goroutine that is started is an effect, with what it is given.
-- Boot: boot.go and pkg/builder.go, the actions of the two commands; Boot/Builds, the builds of
--   one hook; Boot/Probed, the health probe on the circuit of the server; Boot/Pushed, from a key to the releases
--   of its pushes, through all of the parts between them.
-- Git/Sha, Git/Receive, Git/Hook: pkg/git/sha.go, and pkg/git/git.go as a list of actions, with the
--   environment that its script hands to the git-receive command.
-- Gitreceive/Config, /Run, /NodeSelector: pkg/gitreceive/config.go, run.go, and
--   `buildBuilderPodNodeSelector` of build.go. Gitreceive/Build: `build` of build.go, as a chain of calls
--   over what other programs give (Gitreceive/Calls), with its commands, paths and keys (Gitreceive/Command);
--   Gitreceive/Build/Trace and Stages, the stages that its actions go through.
-- Gitreceive/Progress: `progress` of k8s_util.go with its callers, as a step relation.
-- Gitreceive/Secret: `createAppEnvConfigSecret` of k8s_util.go, over an interface for the cluster's secrets:
--   a record of operations, the laws that the cluster documents, and a store in memory; K8s/Secrets, the
--   fakes of pkg/k8s/secrets.go. Maps/Contents: the contents of a Go map, a quotient that forgets the order.
-- Gitreceive/Stack, /Imagebuilder, /Job, /Pod: pkg/gitreceive/build_type.go, imagebuilder.go and
--   k8s_util.go: the stack, the environment and the job of a build, and the waits for its pod, over what
--   each poll lists.
-- K8s, Sys: pkg/k8s/utils.go, client.go and watch.go, pkg/sys/env.go and pkg/sys/fs.go.
-- Cleaner: pkg/cleaner/cleaner.go, one round of its loop as a list of actions; Cleaner/Rounds, many rounds
--   on a directory and an object store, which are given by records of operations and their laws, and by
--   instances in memory; Cleaner/Uploads, the cleaner against what builds upload.
-- Storage: pkg/storage/object.go, over the ticks and the timeout that come, image_repo.go, and the fakes of
--   interfaces.go.
-- Healthsrv: the handlers and checks of pkg/healthsrv, as functions of what is received first, and, in
--   Healthsrv/Goroutines, as a step relation on the goroutines of a probe; server.go.
-- Modules named Examples hold concrete runs; the modules below a component hold its theorems.
--
-- Bounds. Every loop of the program that is modelled runs over a list that is given (lines, requests,
-- entries, events), so the functions are total and no fuel is used. Where a handler waits for an event
-- that has not come, its result is `none`. Durations are int64 nanoseconds and wrap around. A slice or an
-- index out of range is `none` where the code does not rule it out before.
--
-- Parameters. The controller's SDK, the ssh package's handshake and `ssh.Unmarshal`, md5, the answers of
-- the store and of kubernetes, and what the operating system returns are arguments of the definitions that
-- use them.
--
-- Not modelled: the interface of pkg/k8s/namespace.go, a declaration; `prettyPrintJSON`, which serves the
-- log; the command line; and logging. `build` also sets the expression by which the storage library
-- accepts paths, whose effect is in what the calls of the store give. In the cleaner's expression, the
-- characters of an app's name other than a dot stand for themselves, as for the names that the cluster
-- allows, so it compiles. The interval of the ticker of `WaitForObject` is positive, as `CheckDurations`
-- makes it.
pub mod Base
pub mod Boot
pub mod Text
pub mod Maps
pub mod Conf
pub mod Controller
pub mod Sshd
pub mod Git
pub mod Gitreceive
pub mod Cleaner
pub mod Storage
pub mod Healthsrv
pub mod Sys
pub mod K8s
