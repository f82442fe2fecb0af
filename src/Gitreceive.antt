-- ===== src/Gitreceive.antt =====
-- pkg/gitreceive: the git-receive hook, which builds the app that has been pushed.
pub mod Config
pub mod Run
pub mod NodeSelector
pub mod Stack
pub mod Imagebuilder
pub mod Job
pub mod Pod
pub mod Secret
pub mod Progress
pub mod Calls
pub mod Command
pub mod Build
pub mod Samples
mod Examples
