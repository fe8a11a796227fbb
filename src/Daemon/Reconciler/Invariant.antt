-- ===== src/Daemon/Reconciler/Invariant.antt =====
-- Every pass of daemon/pkg/reconciler/reconciler.go keeps the VMs of the host apart.
use yaghan.Base.Text.{Text, text_eq}
use yaghan.Daemon.Host.{Host}
use yaghan.Daemon.Reconciler.{Daemon}
