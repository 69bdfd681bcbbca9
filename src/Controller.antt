-- ===== src/Controller.antt =====
-- pkg/hostedcontrolplane/controller.go: the controller of the HostedControlPlane resource.
pub mod State
pub mod Phases
pub mod Normal
pub mod Patch
pub mod Reconcile
pub mod Mapping
