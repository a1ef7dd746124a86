-- ===== src/Controller/Deletion/Removed.antt =====
-- What a deletion that is answered as settled leaves of the objects at cluster level.
use kubeturbo_deploy.Outcome.{Outcome}
use kubeturbo_deploy.Client.{Client}
