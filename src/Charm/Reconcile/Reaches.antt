-- ===== src/Charm/Reconcile/Reaches.antt =====
-- A run of the handler of peer events that is not deferred reaches its goal.
use mongodb_k8s_operator.Core.Error.{Error}
use mongodb_k8s_operator.Core.Call.{Call, Connection}
use mongodb_k8s_operator.Core.Event.{Event}
use mongodb_k8s_operator.Core.World.{World}
use mongodb_k8s_operator.Core.Ensures.{Ensures}
use mongodb_k8s_operator.Charm.Reconcile.Deferred.{Deferred}
